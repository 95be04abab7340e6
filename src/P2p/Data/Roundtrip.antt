-- ===== src/P2p/Data/Roundtrip.antt =====
-- The reads of a direct payload frame against its writes.
use xray_mesh.Base.{
  ℕ, zero, suc, ◌+◌, ◌-◌, ◌/◌, ◌%◌, ◌^◌, ◌<◌, ◌≤◌, ◌≡◌, refl, sym, ap, ◌∙◌, arith, false, not, ◌||◌,
  [], ◌∷◌, ◌++◌, ltb, ◌==◌, length, length-append, take, drop, take-length-append,
  drop-length-append, get_or, ok,
}
use xray_mesh.P2p.Data.{direct_frame, read_frame, put_uint32, uint32_at, slice}
use xray_mesh.Text.{Bytes}
use xray_mesh.Transport.Frame.{put_uint16, uint16_at}

drop_nil : (n : ℕ) → drop {A = ℕ} n [] ≡ []
drop_nil zero = refl
drop_nil (suc n) = refl

drop_add : (m n : ℕ) (b : Bytes) → drop (m + n) b ≡ drop n (drop m b)
drop_add zero n b = let e : 0 + n ≡ n = omega arith in ap (λ k. drop k b) e
drop_add (suc m) n [] = drop_nil (suc m + n) ∙ sym (drop_nil n)
drop_add (suc m) n (x ∷ b) =
    ap (λ k. drop k (x ∷ b)) (let e : suc m + n ≡ suc (m + n) = omega arith in e) ∙ drop_add m n b

-- Behind a field of `n` bytes at `at`.
behind :
    (b field rest : Bytes) (at n : ℕ)
    → length field ≡ n
    → drop at b ≡ field ++ rest
    → drop (at + n) b ≡ rest
behind b field rest at n l e =
    drop_add at n b
    ∙ ap (drop n) e
    ∙ ap (λ k. drop k (field ++ rest)) (sym l)
    ∙ drop-length-append field rest

field_at :
    (b field rest : Bytes) (at n : ℕ)
    → length field ≡ n
    → drop at b ≡ field ++ rest
    → take n (drop at b) ≡ field
field_at b field rest at n l e =
    ap (take n) e ∙ ap (λ k. take k (field ++ rest)) (sym l) ∙ take-length-append field rest

get_or-drop : (b : Bytes) (at i : ℕ) → get_or b (at + i) 0 ≡ get_or (drop at b) i 0
get_or-drop b zero i = ap (λ k. get_or b k 0) (omega arith)
get_or-drop [] (suc at) i = refl
get_or-drop (x ∷ b) (suc at) i =
    ap (λ k. get_or (x ∷ b) k 0) (let e : suc at + i ≡ suc (at + i) = omega arith in e)
    ∙ get_or-drop b at i

uint16_at-put :
    (b rest : Bytes) (at n : ℕ) → n ≤ 65535 → drop at b ≡ put_uint16 n ++ rest → uint16_at b at ≡ n
uint16_at-put b rest at n le e =
    let x : get_or b (at + 0) 0 ≡ n / 256 % 256 = get_or-drop b at 0 ∙ ap (λ c. get_or c 0 0) e in
    let y : get_or b (at + 1) 0 ≡ n % 256 = get_or-drop b at 1 ∙ ap (λ c. get_or c 1 0) e in
    let z : get_or b at 0 ≡ n / 256 % 256 = ap (λ k. get_or b k 0) (omega arith) ∙ x in
    rw (z, y) (omega arith)

uint32_at-put :
    (b rest : Bytes) (at n : ℕ) → n < 2 ^ 32 → drop at b ≡ put_uint32 n ++ rest → uint32_at b at ≡ n
uint32_at-put b rest at n lt e =
    let x : get_or b (at + 0) 0 ≡ n / 2 ^ 24 % 256 =
      get_or-drop b at 0 ∙ ap (λ c. get_or c 0 0) e in
    let y : get_or b (at + 1) 0 ≡ n / 2 ^ 16 % 256 =
      get_or-drop b at 1 ∙ ap (λ c. get_or c 1 0) e in
    let v : get_or b (at + 2) 0 ≡ n / 2 ^ 8 % 256 = get_or-drop b at 2 ∙ ap (λ c. get_or c 2 0) e in
    let w : get_or b (at + 3) 0 ≡ n % 256 = get_or-drop b at 3 ∙ ap (λ c. get_or c 3 0) e in
    let z : get_or b at 0 ≡ n / 2 ^ 24 % 256 = ap (λ k. get_or b k 0) (omega arith) ∙ x in
    rw (z, y, v, w) (omega arith)

module _ (id nonce source target ciphertext : Bytes) where
  -- The sizes that the checks before sealing leave.
  pub record IsSized : Type 0 where
    pub id_32 : length id ≡ 32
    pub nonce_12 : length nonce ≡ 12
    pub source_some : 0 < length source
    pub source_fits : length source ≤ 65535
    pub target_some : 0 < length target
    pub target_fits : length target ≤ 65535
    pub tagged : 16 ≤ length ciphertext
    pub fits : length ciphertext < 2 ^ 32

  abbrev pub frame : Bytes
  frame = direct_frame id nonce source target ciphertext

  abbrev body : Bytes
  body = source ++ (target ++ ciphertext)

  abbrev sizes : Bytes
  sizes =
      put_uint16 (length source)
      ++ (put_uint16 (length target) ++ (put_uint32 (length ciphertext) ++ body))

  from_8 : drop 8 frame ≡ id ++ (nonce ++ sizes)
  unfolding direct_frame
  from_8 = refl

  module _ (v : IsSized) where
    from_40 : drop 40 frame ≡ nonce ++ sizes
    from_40 = behind frame id (nonce ++ sizes) 8 32 v.id_32 from_8

    from_52 : drop 52 frame ≡ sizes
    from_52 = behind frame nonce sizes 40 12 v.nonce_12 from_40

    from_54 : drop 54 frame ≡ put_uint16 (length target) ++ (put_uint32 (length ciphertext) ++ body)
    from_54 = behind frame (put_uint16 (length source)) _ 52 2 refl from_52

    from_56 : drop 56 frame ≡ put_uint32 (length ciphertext) ++ body
    from_56 = behind frame (put_uint16 (length target)) _ 54 2 refl from_54

    from_60 : drop 60 frame ≡ body
    from_60 = behind frame (put_uint32 (length ciphertext)) body 56 4 refl from_56

    from_target : drop (60 + length source) frame ≡ target ++ ciphertext
    from_target = behind frame source (target ++ ciphertext) 60 (length source) refl from_60

    from_ciphertext : drop (60 + length source + length target) frame ≡ ciphertext
    from_ciphertext =
        behind frame target ciphertext (60 + length source) (length target) refl from_target

    pub length-frame : length frame ≡ 60 + length source + length target + length ciphertext
    unfolding direct_frame
    length-frame = ground (
      arith,
      v.id_32,
      v.nonce_12,
      length-append id (nonce ++ sizes),
      length-append nonce sizes,
      length-append source (target ++ ciphertext),
      length-append target ciphertext,
    )

    source_read : slice frame 60 (60 + length source) ≡ source
    source_read =
        let e : 60 + length source - 60 ≡ length source = omega arith in
        ap (λ k. take k (drop 60 frame)) e
        ∙ field_at frame source (target ++ ciphertext) 60 (length source) refl from_60

    target_read : slice frame (60 + length source) (60 + length source + length target) ≡ target
    target_read =
        let e : 60 + length source + length target - (60 + length source) ≡ length target =
          omega arith in
        ap (λ k. take k (drop (60 + length source) frame)) e
        ∙ field_at frame target ciphertext (60 + length source) (length target) refl from_target

    pub id_read : slice frame 8 40 ≡ id
    id_read = field_at frame id (nonce ++ sizes) 8 32 v.id_32 from_8

    nonce_read : slice frame 40 52 ≡ nonce
    nonce_read = field_at frame nonce sizes 40 12 v.nonce_12 from_40

    -- The reads give back what was written.
    pub read_frame-frame :
        read_frame frame
        ≡ ok (record {
          ticket_id = id;
          nonce = nonce;
          source_node = source;
          target_node = target;
          ciphertext = ciphertext;
        })
    unfolding read_frame
    read_frame-frame =
        let a : uint16_at frame 52 ≡ length source =
          uint16_at-put frame _ 52 (length source) v.source_fits from_52 in
        let b : uint16_at frame 54 ≡ length target =
          uint16_at-put frame _ 54 (length target) v.target_fits from_54 in
        let c : uint32_at frame 56 ≡ length ciphertext =
          uint32_at-put frame body 56 (length ciphertext) v.fits from_56 in
        let ok_lengths : (length source == 0 || length target == 0 || ltb (length ciphertext) 16)
            ≡ false =
          ground (arith, v.source_some, v.target_some, v.tagged) in
        let ok_total : not (60 + length source + length target + length ciphertext == length frame)
            ≡ false =
          rw length-frame (ground arith) in
        rw
          (
            a, b, c, ok_lengths, ok_total, id_read, nonce_read, source_read, target_read,
            from_ciphertext,
          )
          refl
