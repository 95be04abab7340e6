-- ===== src/Xray/Profile/Lines.antt =====
-- A concrete Json for the tests: a value is a list of strings, each byte one up, each string ended
-- by a 0, behind one byte that tells objects, arrays and TUN inbounds apart.
use xray_mesh.Base.{
  ℕ, suc, zero, ◌≡◌, refl, sym, ap, ◌∙◌, arith, true, false, Option, none, some, List, [], ◌∷◌,
  ◌++◌, map, All, ◌==◌, length, ℕ_discrete, if◌then◌else◌,
}
use xray_mesh.Base.Maps.{Map, lookup}
use xray_mesh.Netip.{Prefix}
use xray_mesh.P2p.Tickets.{str_eq}
use xray_mesh.Text.{Bytes, codes, str_dec}
use xray_mesh.Xray.Profile.{TunInbound, Json, normed}

unfoldable pub string : Bytes → Bytes → Bytes
string [] t = 0 ∷ t
string (c ∷ s) t = suc c ∷ string s t

unfoldable pub strings : List Bytes → Bytes → Bytes
unfolding string
strings [] t = t
strings (s ∷ l) t = string s (strings l t)

abbrev push : ℕ → List Bytes → List Bytes
push c [] = (c ∷ []) ∷ []
push c (s ∷ l) = (c ∷ s) ∷ l

unfoldable pub split : Bytes → List Bytes
split [] = []
split (zero ∷ r) = [] ∷ split r
split (suc c ∷ r) = push c (split r)

split-string : (s t : Bytes) → split (string s t) ≡ s ∷ split t
unfolding split string
split-string [] t = refl
split-string (c ∷ s) t = ap (push c) (split-string s t)

split-strings : (l : List Bytes) (t : Bytes) → split (strings l t) ≡ l ++ split t
unfolding strings
split-strings [] t = refl
split-strings (s ∷ l) t = split-string s (strings l t) ∙ ap (λ r. s ∷ r) (split-strings l t)

string-append : (s t u : Bytes) → string s t ++ u ≡ string s (t ++ u)
unfolding string
string-append [] t u = refl
string-append (c ∷ s) t u = ap (λ r. suc c ∷ r) (string-append s t u)

strings-append : (l : List Bytes) (t u : Bytes) → strings l t ++ u ≡ strings l (t ++ u)
unfolding strings
strings-append [] t u = refl
strings-append (s ∷ l) t u = string-append s (strings l t) u ∙ ap (string s) (strings-append l t u)

-- The keys and values of an object, in turn.
unfoldable pub flat : Map Bytes Bytes → List Bytes
flat [] = []
flat ((k, v) ∷ m) = k ∷ v ∷ flat m

unfoldable pub unflat : List Bytes → Map Bytes Bytes
unflat [] = []
unflat (k ∷ []) = []
unflat (k ∷ v ∷ l) = (k, v) ∷ unflat l

unflat-flat : (m : Map Bytes Bytes) (x : Bytes) → unflat (flat m ++ (x ∷ [])) ≡ m
unfolding flat unflat
unflat-flat [] x = refl
unflat-flat ((k, v) ∷ m) x = ap (λ r. (k, v) ∷ r) (unflat-flat m x)

abbrev root_of : Bytes → Option (Map Bytes Bytes)
root_of [] = none
root_of (c ∷ b) = if c == 123 then some (unflat (split b)) else none

abbrev list_of : Bytes → Option (List Bytes)
list_of [] = none
list_of (c ∷ b) = if c == 91 then some (split b) else none

-- Other inbounds than a written one are their protocol.
abbrev meta_of : Bytes → List Bytes → Bytes × Bytes
meta_of s (protocol ∷ tag ∷ l) = (protocol, tag)
meta_of s _ = (s, [])

abbrev routes_of : List Bytes → Option (List Bytes)
routes_of (protocol ∷ tag ∷ routes) = some routes
routes_of _ = none

abbrev root_text : Map Bytes Bytes → Bytes
root_text m = 123 ∷ strings (flat m) []

abbrev list_text : List Bytes → Bytes
list_text l = 91 ∷ strings l []

abbrev inbound_text : TunInbound → Bytes
inbound_text i = strings (i.protocol ∷ i.tag ∷ i.routes) []

split_all : (l : List Bytes) → split (strings l []) ≡ l
unfolding split
split_all [] = split-strings [] []
split_all (s ∷ l) =
    split-strings (s ∷ l) [] ∙ ap (λ r. s ∷ r) (sym (split-strings l []) ∙ split_all l)

pub all_true {ℓ} : {A : Type ℓ} (l : List A) → All (λ r. true ≡ true) l
all_true [] = tt
all_true (a ∷ l) = (refl, all_true l)

pub entries_true : (m : Map Bytes Bytes) → All (λ e. (true ≡ true) × (true ≡ true)) m
entries_true [] = tt
entries_true (e ∷ m) = ((refl, refl), entries_true m)

pub root_back_lem :
    (m : Map Bytes Bytes)
    → (n : Map Bytes Bytes) × (root_of (root_text m ++ (10 ∷ [])) ≡ some n)
      × ((k : Bytes) → normed (λ r. r) (lookup str_dec k n) ≡ normed (λ r. r) (lookup str_dec k m))
unfolding split
root_back_lem m = (
  m,
  ap (λ b. some (unflat (split b))) (strings-append (flat m) [] (10 ∷ []))
      ∙ ap (λ l. some (unflat l)) (split-strings (flat m) (10 ∷ []))
      ∙ ap some (unflat-flat m (9 ∷ [])),
  λ k. refl,
)

pub list_back_lem :
    (l : List Bytes) (raw : Bytes)
    → raw ≡ list_text l
    → ((length raw == 0) ≡ false)
      × (str_eq raw (codes "null") ≡ false)
      × (back : List Bytes) × (list_of raw ≡ some back)
      × (map (λ r. r) back ≡ map (λ r. r) l)
unfolding str_dec ℕ_discrete
list_back_lem l raw e = (
  ap (λ r. length r == 0) e ∙ ground arith,
  ap (λ r. str_eq r (codes "null")) e,
  l,
  ap list_of e ∙ ap some (split_all l),
  refl,
)

pub inbound_back_lem :
    (i : TunInbound) (raw : Bytes)
    → raw ≡ inbound_text i
    → (tag : Bytes) × (some (meta_of raw (split raw)) ≡ some (i.protocol, tag))
      × (routes_of (split raw) ≡ some i.routes)
inbound_back_lem i raw e =
    let read : split raw ≡ i.protocol ∷ i.tag ∷ i.routes =
      ap split e ∙ split_all (i.protocol ∷ i.tag ∷ i.routes) in
    (i.tag, ap (λ l. some (meta_of raw l)) read, ap routes_of read)

-- Every string is a text, and every text a value.
abbrev pub lines : (Prefix → Bytes) → Json
lines prefix_text = record {
  read_root = root_of;
  read_list = list_of;
  read_meta = λ s. some (meta_of s (split s));
  read_routes = λ s. routes_of (split s);
  write_inbound = inbound_text;
  write_list = list_text;
  write_root = root_text;
  equal_fold = str_eq;
  prefix_text = prefix_text;
  norm = λ r. r;
  is_json = λ r. true;
  is_text = λ r. true;
  ascii_text = λ s h. refl;
  prefix-is_text = λ p. refl;
  root_json = λ s m e. entries_true m;
  list_json = λ s l e. all_true l;
  inbound_json = λ i. refl;
  written_json = λ l h. refl;
  root_back = λ m h. root_back_lem m;
  list_back = λ l raw h e. list_back_lem l raw e;
  inbound_back = λ i raw t h e. inbound_back_lem i raw e;
}
