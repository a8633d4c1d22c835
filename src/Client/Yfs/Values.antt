-- ===== src/Client/Yfs/Values.antt =====
-- What went before, where an operation of src/client/yfs_client.cc ends with a value.
use ctgfs.Prelude.{ℕ, ◌≡◌, refl, ap, sym, ◌∙◌, Option, none, some, arith}
use ctgfs.Client.Yfs.Io.{
  Status, Outcome, value, failed, stuck, undefined, Io, M, and_then, fail, undefined_if_none,
  acquire, release, given_or, need, lifted,
}

abbrev pub value_of : {A : Type 0} → Outcome A → Option A
value_of (value a) = some a
value_of _ = none

abbrev pub value_or : {A : Type 0} → A → Outcome A → A
value_or d (value a) = a
value_or d _ = d

module _ {S : Type 0} where
  pub then-value :
      {A B : Type 0} (r : Outcome A × Io S) (g : A → M S B) (b : B) (io2 : Io S)
      → and_then r g ≡ (value b, io2)
      → (a : A) × (io1 : Io S) × (r ≡ (value a, io1)) × (g a io1 ≡ (value b, io2))
  then-value (value a, io1) g b io2 e = (a, io1, refl, e)
  then-value (failed s, io) g b io2 e = cc
  then-value (stuck, io) g b io2 e = cc
  then-value (undefined, io) g b io2 e = cc

  given_or-value :
      {A : Type 0} (cleanup : M S (Unit {0})) (s : Status) (o : Option A) (io io1 : Io S) (a : A)
      → given_or cleanup s o io ≡ (value a, io1)
      → (o ≡ some a) × (io ≡ io1)
  given_or-value cleanup s none io io1 a e =
      let (t, io', _, bad) = then-value (cleanup io) (λ _. fail s) a io1 e in cc
  given_or-value cleanup s (some v) io io1 a e = (ap (λ r. value_of r.0) e, ap (λ r. r.1) e)

  pub need-value :
      {A : Type 0} (call : M S (Option A)) (cleanup : M S (Unit {0})) (s : Status) (io io1 : Io S)
      (a : A)
      → need call cleanup s io ≡ (value a, io1)
      → call io ≡ (value (some a), io1)
  need-value call cleanup s io io1 a e =
      let (o, io2, made, given) = then-value (call io) (given_or cleanup s) a io1 e in
      let (isa, same) = given_or-value cleanup s o io2 io1 a given in
      made ∙ (ap (λ v. (value v, io2)) isa ∙ ap (λ i. (value (some a), i)) same)

  pub undefined-value :
      {A : Type 0} (o : Option A) (io io1 : Io S) (a : A)
      → undefined_if_none o io ≡ (value a, io1)
      → (o ≡ some a) × (io ≡ io1)
  undefined-value none io io1 a e = cc
  undefined-value (some v) io io1 a e = (ap (λ r. value_of r.0) e, ap (λ r. r.1) e)

  pub lifted-value :
      {A : Type 0} (c : S → A × S) (io io1 : Io S) (a : A)
      → lifted c io ≡ (value a, io1)
      → ((c io.store).0 ≡ a) × ((c io.store).1 ≡ io1.store)
  lifted-value c io io1 a e = (ap (λ r. value_or (c io.store).0 r.0) e, ap (λ r. r.1.store) e)

  acquire_keeps : (lid : ℕ) (io : Io S) → (acquire lid io).1.store ≡ io.store
  unfolding acquire
  acquire_keeps lid io = ground arith

  release_keeps : (lid : ℕ) (io : Io S) → (release lid io).1.store ≡ io.store
  unfolding release
  release_keeps lid io = ground arith

  pub acquire-store :
      (lid : ℕ) (io io1 : Io S) → acquire lid io ≡ (value tt, io1) → io1.store ≡ io.store
  acquire-store lid io io1 e = sym (ap (λ r. r.1.store) e) ∙ acquire_keeps lid io

  pub release-store :
      (lid : ℕ) (io io1 : Io S) → release lid io ≡ (value tt, io1) → io1.store ≡ io.store
  release-store lid io io1 e = sym (ap (λ r. r.1.store) e) ∙ release_keeps lid io
