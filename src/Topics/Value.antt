-- ===== src/Topics/Value.antt =====
-- The subscribers of topics/memtopics.go, which are Go values of type `interface{}`, and `equal`.
-- A pointer is its address. The kinds of number are the source's cases but for the floats; a type
-- with no `==`, where Go panics, is not modelled.
use magic_mqtt.Prelude.{ℕ, ◌≡◌, ◌↔◌, refl, ap, Bool, true, false, ◌&&◌, List, ◌==◌, arith}
use magic_mqtt.Topics.Level.{same, same_iff}

pub data Kind : Type 0 where
  int int8 int16 int32 int64 uint uint8 uint16 uint32 uint64 uintptr : Kind

pub data Value : Type 0 where
  nothing : Value
  pointer : ℕ → Value
  func : ℕ → Value
  string : List ℕ → Value
  number : Kind → ℕ → Value

abbrev kind_index : Kind → ℕ
kind_index int = 0
kind_index int8 = 1
kind_index int16 = 2
kind_index int32 = 3
kind_index int64 = 4
kind_index uint = 5
kind_index uint8 = 6
kind_index uint16 = 7
kind_index uint32 = 8
kind_index uint64 = 9
kind_index uintptr = 10

-- `equal`: values of two types differ, and so do two functions, since `&k1 == &k2` compares the
-- addresses of the two parameters.
unfoldable pub equal : Value → Value → Bool
equal nothing nothing = true
equal (pointer a) (pointer b) = a == b
equal (func a) (func b) = false
equal (string a) (string b) = same a b
equal (number j a) (number k b) = kind_index j == kind_index k && a == b
equal _ _ = false

abbrev pub IsFunc : Value → Type 0
IsFunc (func a) = Unit {0}
IsFunc _ = ⊥

kind_index_inj : (j k : Kind) → kind_index j ≡ kind_index k → j ≡ k
kind_index_inj j k e = ground arith

-- Values that `equal` holds for equal are the same value.
pub equal→eq : (a b : Value) → equal a b ≡ true → a ≡ b
unfolding equal
equal→eq nothing nothing e = refl
equal→eq (pointer a) (pointer b) e = ground arith
equal→eq (string a) (string b) e = ap string ((same_iff a b).0 e)
equal→eq (number j a) (number k b) e = ground (arith, kind_index_inj j k)
equal→eq (func a) (func b) e = cc
equal→eq _ _ e = cc

-- `equal` holds a value for equal to itself exactly when it is no function, so a function that
-- subscribes twice is kept twice and is never removed by its value.
pub equal_self : (a : Value) → (equal a a ≡ true) ↔ (¬ (IsFunc a))
unfolding equal
equal_self nothing = (λ e h. h, λ h. refl)
equal_self (pointer a) = (λ e h. h, λ h. ground arith)
equal_self (func a) = (λ e h. cc, λ h. absurd (h tt))
equal_self (string a) = (λ e h. h, λ h. (same_iff a a).1 refl)
equal_self (number k a) = (λ e h. h, λ h. ground arith)
