-- ===== src/HashInterface/Types.antt =====
-- The hash function and the two instances of `dictType` in clib/hash_interface.c.
-- An int key is the 64-bit value of its `void *`, stored lowest byte first. A string key or value
-- is the list of its bytes up to the terminating 0.
use chenghualearning.Common.{
  ℕ, zero, suc, ◌+◌, ◌*◌, ◌/◌, ◌%◌, ◌^◌, ◌<◌, ◌≡◌, refl, ◌∙◌, Bool, true, false, none, some, List,
  [], ◌∷◌, ◌++◌, arith, ◌==◌, ◌&&◌, if◌then◌else◌, length,
}
use chenghualearning.HashInterface.{DictType, dict_free}

-- The loop of `dictGenHashFunction`: hash * 33 + c, in 32 bits.
unfoldable pub gen_hash_loop : ℕ → List ℕ → ℕ
gen_hash_loop hash [] = hash
gen_hash_loop hash (c ∷ buf) = gen_hash_loop ((hash * 2 ^ 5 % 2 ^ 32 + hash + c) % 2 ^ 32) buf

unfoldable pub dict_gen_hash_function : List ℕ → ℕ
dict_gen_hash_function buf = gen_hash_loop 5381 buf

-- The `n` bytes of a number in memory.
unfoldable pub bytes_of : ℕ → ℕ → List ℕ
bytes_of zero x = []
bytes_of (suc n) x = x % 256 ∷ bytes_of n (x / 256)

unfoldable pub dict_int_hash : ℕ → ℕ
dict_int_hash key = dict_gen_hash_function (bytes_of 8 key)

unfoldable pub dict_int_key_cmp : ℕ → ℕ → Bool
dict_int_key_cmp key1 key2 = if key1 == key2 then true else false

unfoldable pub dict_type_int : DictType ℕ ℕ
dict_type_int = record {
  hash_function = dict_int_hash;
  key_dup = none;
  val_dup = none;
  key_compare = some dict_int_key_cmp;
  key_destructor = none;
  val_destructor = none;
}

-- `strlen(key) + 1` bytes are hashed.
unfoldable pub dict_string_hash : List ℕ → ℕ
dict_string_hash key = dict_gen_hash_function (key ++ (0 ∷ []))

-- `0 == strcmp(key1, key2)`
unfoldable pub dict_string_key_cmp : List ℕ → List ℕ → Bool
dict_string_key_cmp [] [] = true
dict_string_key_cmp (a ∷ s) (b ∷ t) = a == b && dict_string_key_cmp s t
dict_string_key_cmp _ _ = false

unfoldable pub dict_string_destructor : List ℕ → ℕ → ℕ
dict_string_destructor s mem = dict_free (length s + 1) mem

unfoldable pub dict_type_string : DictType (List ℕ) (List ℕ)
dict_type_string = record {
  hash_function = dict_string_hash;
  key_dup = none;
  val_dup = none;
  key_compare = some dict_string_key_cmp;
  key_destructor = some dict_string_destructor;
  val_destructor = some dict_string_destructor;
}

-- The bytes as the digits of a number to the base 33, behind the digit `h`.
pub horner : ℕ → List ℕ → ℕ
horner h [] = h
horner h (c ∷ buf) = horner (h * 33 + c) buf

horner_mod :
    (buf : List ℕ) (a b : ℕ)
    → a % 2 ^ 32 ≡ b % 2 ^ 32
    → horner a buf % 2 ^ 32 ≡ horner b buf % 2 ^ 32
unfolding horner
horner_mod [] a b h = h
horner_mod (c ∷ buf) a b h = horner_mod buf (a * 33 + c) (b * 33 + c) (omega arith)

gen_hash_loop-horner :
    (buf : List ℕ) (h : ℕ) → h < 2 ^ 32 → gen_hash_loop h buf ≡ horner h buf % 2 ^ 32
unfolding gen_hash_loop horner
gen_hash_loop-horner [] h small = omega arith
gen_hash_loop-horner (c ∷ buf) h small =
    gen_hash_loop-horner buf _ (omega arith)
    ∙ horner_mod buf ((h * 2 ^ 5 % 2 ^ 32 + h + c) % 2 ^ 32) (h * 33 + c) (omega arith)

-- The hash is the value of the bytes as digits to the base 33 behind 5381, modulo 2^32.
pub dict_gen_hash-horner : (buf : List ℕ) → dict_gen_hash_function buf ≡ horner 5381 buf % 2 ^ 32
unfolding dict_gen_hash_function
dict_gen_hash-horner buf = gen_hash_loop-horner buf 5381 (omega arith)

pub dict_gen_hash-lt : (buf : List ℕ) → dict_gen_hash_function buf < 2 ^ 32
dict_gen_hash-lt buf = omega (arith, dict_gen_hash-horner buf)

-- Strings that compare equal are the same bytes.
pub dict_string_key_cmp-eq : (s t : List ℕ) → dict_string_key_cmp s t ≡ true → s ≡ t
unfolding dict_string_key_cmp
dict_string_key_cmp-eq [] [] h = refl
dict_string_key_cmp-eq (a ∷ s) (b ∷ t) h = ground (arith, dict_string_key_cmp-eq s t)
dict_string_key_cmp-eq [] (b ∷ t) h = ground arith
dict_string_key_cmp-eq (a ∷ s) [] h = ground arith

pub dict_string_key_cmp_refl : (s : List ℕ) → dict_string_key_cmp s s ≡ true
unfolding dict_string_key_cmp
dict_string_key_cmp_refl [] = refl
dict_string_key_cmp_refl (a ∷ s) = ground (arith, dict_string_key_cmp_refl s)
