-- ===== src/Intern.antt =====
-- src/str.c: the table of interned strings, one pointer for each text.
pub mod Content
pub mod Valid
pub mod Added
pub mod Unique
mod Tests
use winds.Base.{
  ℕ, zero, suc, ◌*◌, ◌%◌, ◌^◌, Bool, true, false, ◌&&◌, Option, none, some, List, [], ◌∷◌, ◌++◌,
  if◌then◌else◌, ◌==◌, length, get_elem?,
}
use Prim.Native.Nat.{bit_xor}

-- A pointer to characters: the literal "", or the string that was allocated under a number.
pub data StrPtr : Type 0 where
  empty_literal : StrPtr
  allocated : ℕ → StrPtr

-- `InternEntry`: `str` is the number of an allocated string. The link `next` is the order of a list.
pub record InternEntry : Type 0 where
  pub str : ℕ
  pub len : ℕ

-- `g_str_arena`, with whether it was created and the strings in it, and `g_hash_table`.
pub record Interner : Type 0 where
  pub created : Bool
  pub strings : List (List ℕ)
  pub hash_table : ℕ → List InternEntry

abbrev pub hash_table_size : ℕ
hash_table_size = 4096

-- The loop of the hash, from a value on.
unfoldable pub fnv1a_step : ℕ → List ℕ → ℕ
fnv1a_step hash [] = hash
fnv1a_step hash (byte ∷ rest) = fnv1a_step ((bit_xor hash byte * 16777619) % 2 ^ 32) rest

unfoldable pub fnv1a_hash : List ℕ → ℕ
fnv1a_hash bytes = fnv1a_step 2166136261 bytes

unfoldable pub str_intern_init : Interner → Interner
str_intern_init s = record s { created = true; hash_table = λ bucket. [] }

unfoldable pub ensure_init : Interner → Interner
ensure_init s = if s.created then s else str_intern_init s

-- `memcmp(a, b, n) == 0`; no byte is read behind the end of either.
unfoldable pub memcmp_eq : ℕ → List ℕ → List ℕ → Bool
memcmp_eq zero a b = true
memcmp_eq (suc n) [] b = false
memcmp_eq (suc n) (x ∷ a) [] = false
memcmp_eq (suc n) (x ∷ a) (y ∷ b) = (x == y) && memcmp_eq n a b

-- `e->len == len && memcmp(e->str, start, len) == 0`
unfoldable pub is_entry_of : List (List ℕ) → List ℕ → InternEntry → Bool
is_entry_of strings bytes e = elim (get_elem? strings e.str) [
  | none ↦ false
  | some content ↦ (e.len == length bytes) && memcmp_eq (length bytes) content bytes
]

-- The string of the first entry of the bucket with these bytes.
unfoldable pub find_entry : List (List ℕ) → List ℕ → List InternEntry → Option ℕ
find_entry strings bytes [] = none
find_entry strings bytes (e ∷ rest) =
    let found = find_entry strings bytes rest in
    if is_entry_of strings bytes e then some e.str else found

unfoldable pub bucket_of : List ℕ → ℕ
bucket_of bytes = fnv1a_hash bytes % hash_table_size

-- A new string, with its terminator, and its entry.
unfoldable pub add_entry : List ℕ → Interner → StrPtr × Interner
add_entry bytes s =
    let dup = length s.strings in
    let bucket = bucket_of bytes in
    let entry : InternEntry = record { str = dup; len = length bytes } in
    (
      allocated dup,
      record s {
        strings = s.strings ++ ((bytes ++ (0 ∷ [])) ∷ []);
        hash_table = λ b. if b == bucket then entry ∷ s.hash_table b else s.hash_table b;
      },
    )

unfoldable pub intern_nonempty : List ℕ → Interner → StrPtr × Interner
intern_nonempty bytes s = elim (find_entry s.strings bytes (s.hash_table (bucket_of bytes))) [
  | some str ↦ (allocated str, s)
  | none ↦ add_entry bytes s
]

-- The bytes from `start` to `end`.
unfoldable pub str_intern_range : List ℕ → Interner → StrPtr × Interner
str_intern_range [] s = (empty_literal, s)
str_intern_range (byte ∷ rest) s = intern_nonempty (byte ∷ rest) (ensure_init s)

-- `strlen`: the bytes before the terminator.
unfoldable pub before_nul : List ℕ → List ℕ
before_nul [] = []
before_nul (byte ∷ rest) = let later = before_nul rest in if byte == 0 then [] else byte ∷ later

unfoldable pub str_intern : Option (List ℕ) → Interner → StrPtr × Interner
str_intern none s = (empty_literal, s)
str_intern (some str) s = str_intern_range (before_nul str) s

-- The memory of the arena is freed.
unfoldable pub str_intern_destroy : Interner → Interner
str_intern_destroy s = record { created = false; strings = []; hash_table = λ bucket. [] }

-- The strings of a list interned in turn.
unfoldable pub intern_all : List (List ℕ) → Interner → List StrPtr × Interner
intern_all [] s = ([], s)
intern_all (bytes ∷ rest) s =
    let (p, s') = str_intern_range bytes s in
    let (ps, final) = intern_all rest s' in (p ∷ ps, final)
