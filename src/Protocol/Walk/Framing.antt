-- ===== src/Protocol/Walk/Framing.antt =====
-- What a well-framed BTHome object is, said without the walk, and that `value_length` measures it.
use bthome_writable.Common.{
  ℕ, suc, ◌+◌, ◌≤◌, ◌≡◌, refl, ap, ◌≢◌, ◌⊎◌, inl, inr, refl, String, Bool, true, false, Option,
  none, some, List, [], ◌∷◌, ◌++◌, bit_and, length, take, Result, ok, err, protocol_error,
  get_elem?-append, length-append, length-take, arith,
}
use bthome_writable.Protocol.Const.{declaration_object_id}
use bthome_writable.Protocol.Walk.{Bytes, Table, length_prefixed, command_format, value_length}

-- The value bytes that a format asks for: a length byte and as many more, a command's argument
-- count and opcode and arguments, or a fixed number.
abbrev pub HasShape : Bool → Bool → ℕ → Bytes → Type 0
HasShape true c fixed [] = ⊥
HasShape true c fixed (size ∷ body) = length body ≡ size
HasShape false true fixed [] = ⊥
HasShape false true fixed (size ∷ body) = length body ≡ 1 + bit_and size 0x1F
HasShape false false fixed v = length v ≡ fixed

abbrev pub IsValueOf : String × ℕ → Bytes → Type 0
IsValueOf (f, fixed) v = HasShape (length_prefixed f) (command_format f) fixed v

-- An unsigned integer has neither a length byte nor a command's count.
pub unsigned_format :
    (length_prefixed "unsigned_integer" ≡ false) × (command_format "unsigned_integer" ≡ false)
unfolding length_prefixed command_format
unsigned_format = (refl, refl)

pub IsValueOf-unsigned :
    (format : String × ℕ) (width : ℕ) (v : Bytes)
    → format ≡ ("unsigned_integer", width)
    → IsValueOf format v
    → length v ≡ width
IsValueOf-unsigned format width v e h = let (p, c) = unsigned_format in rw (e, p, c) at h

-- An object as BTHome carries it: its id, then its value.
abbrev pub encode_objects : List (ℕ × Bytes) → Bytes
encode_objects [] = []
encode_objects ((object_id, value) ∷ os) = object_id ∷ value ++ encode_objects os

module _ (table : Table) where
  -- The id is known and is not the declaration's, and the value has its format's length.
  pub record IsFramed (o : ℕ × Bytes) : Type 0 where
    pub format : String × ℕ
    pub known : table o.0 ≡ some format
    pub ordinary : o.0 ≢ declaration_object_id
    pub value : IsValueOf format o.1

  -- Where the walk may stop: at the declaration, at an unknown id, or at the end.
  abbrev pub StopsAt : ℕ → Option ℕ → Bytes → Type 0
  StopsAt at stop [] = stop ≡ none
  StopsAt at stop (object_id ∷ rest) =
      ((object_id ≡ declaration_object_id) × (stop ≡ some at))
      ⊎ ((object_id ≢ declaration_object_id) × (table object_id ≡ none) × (stop ≡ none))

-- `value_length` over the bytes that follow the id.
pub size_of : Bool → Bool → ℕ → Bytes → Result ℕ
size_of true c fixed [] = err protocol_error
size_of true c fixed (size ∷ rest) = ok (1 + size)
size_of false true fixed [] = err protocol_error
size_of false true fixed (size ∷ rest) = ok (2 + bit_and size 0x1F)
size_of false false fixed rest = ok fixed

pub value_length-append :
    (front : Bytes) (object_id : ℕ) (rest : Bytes) (f : String) (fixed : ℕ)
    → value_length (front ++ (object_id ∷ rest)) (length front) f fixed
      ≡ size_of (length_prefixed f) (command_format f) fixed rest
unfolding value_length size_of
value_length-append front object_id [] f fixed =
    ground (arith, length-append front (object_id ∷ []), get_elem?-append front (object_id ∷ []) 1)
value_length-append front object_id (b ∷ rest) f fixed = ground (
  arith,
  length-append front (object_id ∷ b ∷ rest),
  get_elem?-append front (object_id ∷ b ∷ rest) 1,
)

pub size_of_complete :
    (p c : Bool) (fixed : ℕ) (v rest : Bytes)
    → HasShape p c fixed v
    → size_of p c fixed (v ++ rest) ≡ ok (length v)
unfolding size_of
size_of_complete true c fixed [] rest h = absurd h
size_of_complete true c fixed (b ∷ body) rest h = ap ok (omega arith)
size_of_complete false true fixed [] rest h = absurd h
size_of_complete false true fixed (b ∷ body) rest h = ap ok (omega arith)
size_of_complete false false fixed [] rest h = ap ok (omega arith)
size_of_complete false false fixed (b ∷ body) rest h = ap ok (omega arith)

pub size_of_sound :
    (p c : Bool) (fixed : ℕ) (rest : Bytes) (size : ℕ)
    → size_of p c fixed rest ≡ ok size
    → size ≤ length rest
    → HasShape p c fixed (take size rest)
unfolding size_of
size_of_sound true c fixed [] size e h = absurd (ground arith)
size_of_sound true c fixed (b ∷ rest) size e h =
    let s : size ≡ suc b = ground arith in rw s (omega (arith, length-take b rest))
size_of_sound false true fixed [] size e h = absurd (ground arith)
size_of_sound false true fixed (b ∷ rest) size e h =
    let s : size ≡ suc (1 + bit_and b 0x1F) = ground arith in
    rw s (omega (arith, length-take (1 + bit_and b 0x1F) rest))
size_of_sound false false fixed rest size e h =
    let s : size ≡ fixed = ground arith in omega (arith, length-take size rest)

pub size_of-cases :
    (p c : Bool) (fixed : ℕ) (rest : Bytes)
    → ((size : ℕ) × (size_of p c fixed rest ≡ ok size))
      ⊎ (size_of p c fixed rest ≡ err protocol_error)
unfolding size_of
size_of-cases true c fixed [] = inr refl
size_of-cases true c fixed (b ∷ rest) = inl (1 + b, refl)
size_of-cases false true fixed [] = inr refl
size_of-cases false true fixed (b ∷ rest) = inl (2 + bit_and b 0x1F, refl)
size_of-cases false false fixed rest = inl (fixed, refl)
