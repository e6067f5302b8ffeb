-- ===== src/Seed/Again.antt =====
-- Seeding the permissions again changes nothing.
use financial_data.Prelude.{
  ℕ, ◌≡◌, refl, sym, ap, subst, ◌∙◌, true, false, Option, none, some, List, [], ◌∷◌, ◌++◌, select,
  select-append, Bool-cases, inl, inr, arith,
}
use financial_data.Text.{Text}
use financial_data.Text.Laws.{eq_of_text_eq}
use financial_data.Text.Laws.{text_eq_refl}
use financial_data.Result.{Result, ok, err}
use financial_data.Entities.Permission.{Permission}
use financial_data.World.{World, Action, pure, query, write, uuid4, utcnow, ◌>>=◌}
use financial_data.World.Run.{bind-ok, bind-err, bind-inv, query-ok, query-err, query-inv}
use financial_data.World.Keeps.{Keeps, Keeps-bind, Keeps-pure}
use financial_data.TokenService.{scalar_one_or_none}
use financial_data.Repositories.Permissions.{partition, named}
use financial_data.UseCases.Records.Loading.{Result-cases}
use financial_data.Seed.{permission_row, existing_or_new, seed_permissions}

-- Exactly one row has the name, with this identifier.
abbrev Present : Text × Text → ℕ → List Permission → Type 0
Present name id rows = (p : Permission) × (select (named name) rows ≡ p ∷ []) × (p.id ≡ id)

-- What scalar_one_or_none tells of the rows.
none_rows : {A : Type 0} (rows : List A) → scalar_one_or_none rows ≡ ok none → rows ≡ []
unfolding scalar_one_or_none
none_rows [] h = refl
none_rows (a ∷ []) h = cc
none_rows (a ∷ b ∷ rows) h = cc

some_rows :
    {A : Type 0} (rows : List A) (a : A) → scalar_one_or_none rows ≡ ok (some a) → rows ≡ a ∷ []
unfolding scalar_one_or_none
some_rows [] a h = cc
some_rows (b ∷ []) a h = cc
some_rows (b ∷ c ∷ rows) a h = cc

named_self : (name : Text × Text) (id now : ℕ) → named name (permission_row id now name) ≡ true
named_self (resource, action) id now = rw (text_eq_refl resource, text_eq_refl action) refl

-- A row of another name is not selected, where no row had its name and one has the other's.
named_other :
    (name other : Text × Text) (id now : ℕ) (rows : List Permission) (p : Permission)
    → select (named name) rows ≡ p ∷ []
    → select (named other) rows ≡ []
    → named name (permission_row id now other) ≡ false
named_other (r, a) (s, b) id now rows p one none_yet =
    elim (Bool-cases (named (r, a) (permission_row id now (s, b)))) [
      | inr e ↦ e
      | inl e ↦
          let same_r : s ≡ r = eq_of_text_eq s r (ground arith) in
          let same_a : b ≡ a = eq_of_text_eq b a (ground (arith, e)) in clash same_r same_a
    ]
  where
    clash : s ≡ r → b ≡ a → named (r, a) (permission_row id now (s, b)) ≡ false
    clash x y =
        let same : select (named (s, b)) rows ≡ select (named (r, a)) rows = rw (x, y) refl in cc

Present-after :
    (name other : Text × Text) (id new now : ℕ) (rows : List Permission)
    → Present name id rows
    → select (named other) rows ≡ []
    → Present name id (rows ++ permission_row new now other ∷ [])
unfolding select
Present-after name other id new now rows (p, one, named_id) none_yet = (
  p,
  rw
      (
        select-append (named name) rows (permission_row new now other ∷ []),
        named_other name other new now rows p one none_yet,
      )
      (rw one refl),
  named_id,
)

-- Adding the rows of other names keeps a name present.
module _ (name : Text × Text) (id : ℕ) where
  abbrev Kept : World → Type 0
  Kept w = Present name id w.session.permissions

  after_lookup :
      {B : Type 0} (other : Text × Text) (o : Option Permission) (f : ℕ → Action B) (w : World)
      → Kept w
      → scalar_one_or_none (select (named other) w.session.permissions) ≡ ok o
      → ((new : ℕ) → Keeps Kept (f new))
      → Kept ((existing_or_new other o >>= f) w).1
  unfolding existing_or_new ◌>>=◌ uuid4 utcnow write pure
  after_lookup other (some existing) f w h found k = (k existing.id).at w h
  after_lookup other none f w h found k =
      (k (w.uuids 0)).at _
        (Present-after name other id (w.uuids 0) w.now w.session.permissions h (none_rows _ found))

  seed_permissions-Kept : (codenames : List Text) → Keeps Kept (seed_permissions codenames)
  unfolding seed_permissions
  seed_permissions-Kept [] = Keeps-pure _
  seed_permissions-Kept (codename ∷ codenames) = record {
    at = λ w h.
        elim (Result-cases
          (scalar_one_or_none (select (named (partition codename)) w.session.permissions))) [
            | inl (o, e) ↦ rw (bind-ok _ _ w (query-ok _ w e)) (
                after_lookup (partition codename) o _ w h e (λ new.
                  Keeps-bind _ _ (seed_permissions-Kept codenames) (λ others. Keeps-pure _)))
            | inr (x, e) ↦ rw (bind-err _ _ w (query-err _ w e)) h
          ];
  }

-- Every codename is present under the identifier that it was given.
abbrev Seeded : List Text → List (Text × ℕ) → List Permission → Type 0
Seeded [] ids rows = ids ≡ []
Seeded (codename ∷ codenames) ids rows =
    (id : ℕ) × (rest : List (Text × ℕ)) × (ids ≡ (codename, id) ∷ rest)
    × Present (partition codename) id rows
    × Seeded codenames rest rows

-- Where all are present, nothing is written.
Seeded-run :
    (codenames : List Text) (ids : List (Text × ℕ)) (w : World)
    → Seeded codenames ids w.session.permissions
    → seed_permissions codenames w ≡ (ok ids, w)
unfolding seed_permissions existing_or_new ◌>>=◌ query pure scalar_one_or_none
Seeded-run [] ids w h = rw h refl
Seeded-run (codename ∷ codenames) ids w (id, rest, e, (p, one, same), h) =
    rw (one, Seeded-run codenames rest w h, e, same) refl

ok_inj : {A : Type 0} {a b : A} → ok a ≡ ok b → a ≡ b
ok_inj {A = A} {a = a} h = ap (λ (r : Result A). elim r [ ok x ↦ x | err e ↦ a ]) h

-- What a lookup leaves: the name is there under the identifier that it returns.
lookup-Present :
    (other : Text × Text) (o : Option Permission) (w : World) {new : ℕ} {w' : World}
    → scalar_one_or_none (select (named other) w.session.permissions) ≡ ok o
    → existing_or_new other o w ≡ (ok new, w')
    → Present other new w'.session.permissions
unfolding existing_or_new ◌>>=◌ uuid4 utcnow write pure select
lookup-Present other (some p) w found run =
    let same : w ≡ _ = ap (λ (q : Result ℕ × World). q.1) run in
    let new_id = ok_inj (ap (λ (q : Result ℕ × World). q.0) run) in
    (
      p,
      ap (λ (v : World). select (named other) v.session.permissions) (sym same)
          ∙ some_rows _ p found,
      new_id,
    )
lookup-Present other none w found run =
    let same = ap (λ (q : Result ℕ × World). q.1) run in
    let new_id = ok_inj (ap (λ (q : Result ℕ × World). q.0) run) in
    let row = permission_row (w.uuids 0) w.now other in
    (
      row,
      ap (λ (v : World). select (named other) v.session.permissions) (sym same)
          ∙ rw
              (
                select-append (named other) w.session.permissions (row ∷ []),
                none_rows _ found,
                named_self other (w.uuids 0) w.now,
              )
              refl,
      new_id,
    )

seeded :
    (codenames : List Text) (ids : List (Text × ℕ)) (w w' : World)
    → seed_permissions codenames w ≡ (ok ids, w')
    → Seeded codenames ids w'.session.permissions
unfolding seed_permissions pure
seeded [] ids w w' h = sym (ok_inj (ap (λ (q : Result (List (Text × ℕ)) × World). q.0) h))
seeded (codename ∷ codenames) ids w w' h =
    let (o, w₁, e₁, h₁) = bind-inv _ _ w h in
    let (found, same₁) = query-inv _ w e₁ in
    let (new, w₂, e₂, h₂) = bind-inv _ _ w₁ h₁ in
    let (others, w₃, e₃, h₃) = bind-inv _ _ w₂ h₂ in
    let there : Present (partition codename) new w₂.session.permissions =
      lookup-Present (partition codename) o w₁
        (ap
            (λ (v : World).
              scalar_one_or_none (select (named (partition codename)) v.session.permissions))
            (sym same₁)
          ∙ found)
        e₂ in
    let kept : Present (partition codename) new w₃.session.permissions =
      subst
        (λ (q : Result (List (Text × ℕ)) × World).
          Present (partition codename) new q.1.session.permissions)
        e₃ ((seed_permissions-Kept (partition codename) new codenames).at w₂ there) in
    let rest = seeded codenames others w₂ w₃ e₃ in
    let end : w₃ ≡ w' = ap (λ (q : Result (List (Text × ℕ)) × World). q.1) h₃ in
    (
      new,
      others,
      sym (ok_inj (ap (λ (q : Result (List (Text × ℕ)) × World). q.0) h₃)),
      subst (λ (v : World). Present (partition codename) new v.session.permissions) end kept,
      subst (λ (v : World). Seeded codenames others v.session.permissions) end rest,
    )

-- Where the permissions were seeded without an exception, seeding the same codenames again succeeds,
-- gives each the identifier that it has, and changes nothing.
pub seed_permissions_again :
    (codenames : List Text) (ids : List (Text × ℕ)) (w w' : World)
    → seed_permissions codenames w ≡ (ok ids, w')
    → seed_permissions codenames w' ≡ (ok ids, w')
seed_permissions_again codenames ids w w' h =
    Seeded-run codenames ids w' (seeded codenames ids w w' h)
