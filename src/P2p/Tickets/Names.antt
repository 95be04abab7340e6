-- ===== src/P2p/Tickets/Names.antt =====
-- Equality of node names and tokens.
use xray_mesh.Base.{◌≡◌, ◌≢◌, arith, true, false}
use xray_mesh.P2p.Tickets.{str_eq}
use xray_mesh.Text.{Bytes}

pub str_eq-false : (s t : Bytes) → str_eq s t ≡ false → s ≢ t
str_eq-false s t e h = ground arith

pub str_eq-true : (s t : Bytes) → str_eq s t ≡ true → s ≡ t
str_eq-true s t e = ground arith

pub str_eq_self : (s : Bytes) → str_eq s s ≡ true
str_eq_self s = ground arith

pub str_eq_of : (s t : Bytes) → s ≡ t → str_eq s t ≡ true
str_eq_of s t e = ground arith

pub str_eq_no : (s t : Bytes) → s ≢ t → str_eq s t ≡ false
str_eq_no s t n = ground arith
