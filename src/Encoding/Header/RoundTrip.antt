-- ===== src/Encoding/Header/RoundTrip.antt =====
-- `writeTo` and `decode` of encoding/message/fixedheader.go, one after the other.
use magic_mqtt.Prelude.{
  ℕ, ◌<◌, ◌≡◌, Bool, true, false, List, [], ◌∷◌, ◌++◌, ◌&&◌, ◌==◌, refl, arith, ◌∙◌, append_assoc,
}
use magic_mqtt.Prelude.Bits.{holds_up_to, holds_up_to_at}
use magic_mqtt.Encoding.Stream.{ok, read_byte}
use magic_mqtt.Encoding.Varint.RoundTrip.{groups, read_varint-groups, write_varint-groups}
use magic_mqtt.Encoding.Header.{
  FixedHeader, zero_header, first_byte, decode_first, header_write_to, header_decode,
}

same_bool : Bool → Bool → Bool
same_bool true b = b
same_bool false true = false
same_bool false false = true

-- The fields that come back from the first byte.
comes_back : Bool → ℕ → ℕ → ℕ → Bool
unfolding same_bool first_byte decode_first
comes_back dupe retain qos type =
    let h = decode_first zero_header (first_byte type dupe qos retain) in
    h.type == type && h.retain == retain && h.qos_level == qos && same_bool h.dupe dupe

all_come_back : Bool → Bool
all_come_back dupe =
    holds_up_to (λ retain. holds_up_to (λ qos. holds_up_to (comes_back dupe retain qos) 16) 3) 2

true_table : all_come_back true ≡ true
unfolding all_come_back comes_back holds_up_to
true_table = refl

false_table : all_come_back false ≡ true
unfolding all_come_back comes_back holds_up_to
false_table = refl

table : (dupe : Bool) → all_come_back dupe ≡ true
table true = true_table
table false = false_table

comes_back-true :
    (dupe : Bool) (retain qos type : ℕ)
    → retain < 2
    → qos < 3
    → type < 16
    → comes_back dupe retain qos type ≡ true
unfolding all_come_back
comes_back-true dupe retain qos type hr hq ht =
    let by_retain = holds_up_to_at _ 2 retain hr (table dupe) in
    let by_qos = holds_up_to_at _ 3 qos hq by_retain in
    holds_up_to_at (comes_back dupe retain qos) 16 type ht by_qos

pub decode_first-first_byte :
    (dupe : Bool) (retain qos type : ℕ)
    → retain < 2
    → qos < 3
    → type < 16
    → decode_first zero_header (first_byte type dupe qos retain)
      ≡ record { type = type; dupe = dupe; qos_level = qos; retain = retain; remaining_length = 0 }
unfolding comes_back same_bool
decode_first-first_byte dupe retain qos type hr hq ht =
    ground (arith, comes_back-true dupe retain qos type hr hq ht)

-- What `writeTo` puts behind the bytes already written.
pub header_write_to-groups :
    (h : FixedHeader) (n : ℕ) (w : List ℕ)
    → 0 < n
    → n < 0x20_0000
    → (header_write_to h n w).1 ≡ w ++ first_byte h.type h.dupe h.qos_level h.retain ∷ groups 2 n
unfolding header_write_to
header_write_to-groups h n w l m = write_varint-groups n _ l m ∙ append_assoc w _ (groups 2 n)

pub record IsHeader (h : FixedHeader) : Type 0 where
  pub type_fits : h.type < 16
  pub qos_fits : h.qos_level < 3
  pub retain_fits : h.retain < 2

-- `decode` reads back a header whose fields fit that `writeTo` wrote with a length from 1 to 2^21 -
-- 1: every field of it, the length, and nothing of what follows.
pub header_decode-header_write_to :
    (h : FixedHeader) (n : ℕ) (rest : List ℕ)
    → IsHeader h
    → 0 < n
    → n < 0x20_0000
    → header_decode zero_header ((header_write_to h n []).1 ++ rest)
      ≡ (ok (record h { remaining_length = n }), rest)
unfolding header_decode read_byte
header_decode-header_write_to h n rest v l m = rw (header_write_to-groups h n [] l m) (
    rw (read_varint-groups n rest m) (
      rw (
        decode_first-first_byte h.dupe h.retain h.qos_level h.type v.retain_fits v.qos_fits
          v.type_fits)))
