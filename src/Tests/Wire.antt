-- ===== src/Tests/Wire.antt =====
-- Values written in front of a text and read back from it.
use opens.Prelude.{
  ℕ, zero, suc, ◌≡◌, refl, ℤ, pos, negsuc, Bool, true, false, Option, none, some, List, [], ◌∷◌,
  Bytes, length,
}
use mathlib.Core.Option
use opens.Meta.Store.{Codec}

pub record Wire (A : Type 0) : Type 0 where
  pub write : A → Bytes → Bytes
  pub read : Bytes → Option (A × Bytes)
  pub read_write : (x : A) (rest : Bytes) → read (write x rest) ≡ some (x, rest)

abbrev read_nat : Bytes → Option (ℕ × Bytes)
read_nat [] = none
read_nat (n ∷ s) = some (n, s)

abbrev pub nat_wire : Wire ℕ
nat_wire = record { write = λ n s. n ∷ s; read = read_nat; read_write = λ n s. refl }

module _ {A B : Type 0} (a : Wire A) (b : Wire B) where
  read_second : Option (A × Bytes) → Option ((A × B) × Bytes)
  read_second none = none
  read_second (some (x, s)) =
      Option.map (λ (r : B × Bytes). let q : (A × B) × Bytes = ((x, r.0), r.1) in q) (b.read s)

  read_second-write :
      (x : A) (y : B) (s : Bytes)
      → read_second (a.read (a.write x (b.write y s))) ≡ some ((x, y), s)
  unfolding read_second
  read_second-write x y s = rw (a.read_write x (b.write y s), b.read_write y s)

  pub pair_wire : Wire (A × B)
  pair_wire = record {
    write = λ p s. a.write p.0 (b.write p.1 s);
    read = λ s. read_second (a.read s);
    read_write = λ p s. read_second-write p.0 p.1 s;
  }

module _ {A B : Type 0} (to : A → B) (from : B → A) (back : (y : B) → to (from y) ≡ y)
    (a : Wire A) where
  convert : Option (A × Bytes) → Option (B × Bytes)
  convert none = none
  convert (some (x, s)) = some (to x, s)

  convert-write : (y : B) (s : Bytes) → convert (a.read (a.write (from y) s)) ≡ some (y, s)
  unfolding convert
  convert-write y s = rw (a.read_write (from y) s, back y)

  pub map_wire : Wire B
  map_wire = record {
    write = λ y s. a.write (from y) s;
    read = λ s. convert (a.read s);
    read_write = convert-write;
  }

abbrev of_bool : Bool → ℕ
of_bool true = 1
of_bool false = 0

abbrev to_bool : ℕ → Bool
to_bool zero = false
to_bool (suc _) = true

bool_back : (b : Bool) → to_bool (of_bool b) ≡ b
bool_back true = refl
bool_back false = refl

pub bool_wire : Wire Bool
bool_wire = map_wire to_bool of_bool bool_back nat_wire

abbrev of_int : ℤ → Bool × ℕ
of_int (pos n) = (true, n)
of_int (negsuc n) = (false, n)

abbrev to_int : Bool × ℕ → ℤ
to_int (true, n) = pos n
to_int (false, n) = negsuc n

int_back : (z : ℤ) → to_int (of_int z) ≡ z
int_back (pos n) = refl
int_back (negsuc n) = refl

pub int_wire : Wire ℤ
int_wire = map_wire to_int of_int int_back (pair_wire bool_wire nat_wire)

module _ {A : Type 0} (a : Wire A) where
  write_all : List A → Bytes → Bytes
  write_all [] s = s
  write_all (x ∷ xs) s = a.write x (write_all xs s)

  read_items : ℕ → Bytes → Option (List A × Bytes)
  unfolding read_second
  read_items zero s = some ([], s)
  read_items (suc n) s = elim (a.read s) [
    | none ↦ none
    | some (x, s') ↦
        Option.map (λ (r : List A × Bytes). let q : List A × Bytes = (x ∷ r.0, r.1) in q)
          (read_items n s')
  ]

  read_items-write :
      (xs : List A) (s : Bytes) → read_items (length xs) (write_all xs s) ≡ some (xs, s)
  unfolding read_items write_all
  read_items-write [] s = refl
  read_items-write (x ∷ xs) s = rw (a.read_write x (write_all xs s), read_items-write xs s)

  read_list : Bytes → Option (List A × Bytes)
  read_list [] = none
  read_list (n ∷ s) = read_items n s

  read_list-write :
      (xs : List A) (s : Bytes) → read_list (length xs ∷ write_all xs s) ≡ some (xs, s)
  unfolding read_list
  read_list-write xs s = read_items-write xs s

  pub list_wire : Wire (List A)
  list_wire = record {
    write = λ xs s. length xs ∷ write_all xs s;
    read = read_list;
    read_write = read_list-write;
  }

  abbrev of_option : Option A → List A
  of_option none = []
  of_option (some x) = x ∷ []

  abbrev to_option : List A → Option A
  to_option [] = none
  to_option (x ∷ _) = some x

  option_back : (o : Option A) → to_option (of_option o) ≡ o
  option_back none = refl
  option_back (some x) = refl

pub option_wire : {A : Type 0} → Wire A → Wire (Option A)
option_wire a = map_wire (to_option a) (of_option a) (option_back a) (list_wire a)

pub text_wire : Wire Bytes
text_wire = list_wire nat_wire

module _ {A : Type 0} (a : Wire A) where
  first_of : Option (A × Bytes) → Option A
  first_of none = none
  first_of (some (x, s)) = some x

  first_of-write : (x : A) → first_of (a.read (a.write x [])) ≡ some x
  unfolding first_of
  first_of-write x = rw (a.read_write x [])

  pub codec_of : Codec A
  codec_of = record {
    encode = λ x. a.write x [];
    decode = λ s. first_of (a.read s);
    decode_encode = first_of-write;
  }
