-- ===== src/UseCases/Records/Changes.antt =====
-- Updating and deleting a record keep the cached summaries coherent with what is committed, whoever
-- does it: the repository drops the dashboards of the record's owner.
use financial_data.Prelude.{ℕ, ◌≡◌, Option, none, some, inl, inr, Bool-cases, arith}
use financial_data.Text.{Text, lit}
use financial_data.Json.{JsonDict, compute_diff}
use financial_data.Result.{ok}
use financial_data.Money.{Money}
use financial_data.Entities.Enums.{RecordType}
use financial_data.Entities.Record
use financial_data.Entities.Record.{FinancialRecord, belongs_to}
use financial_data.Entities.User.{User}
use financial_data.Entities.Audit.{RequestMeta}
use financial_data.World.{utcnow}
use financial_data.World.Keeps.{Keeps, Keeps-bind, keeps_rules}
use financial_data.Repositories.Categories
use financial_data.UseCases.Records.{
  UpdateRecordDto, check_category, load_category, update_record, delete_record,
}
use financial_data.UseCases.Records.Coherence.{
  IsFresh, IsFresh-with_uow, fresh_rules, log_success-IsFresh,
}
use financial_data.UseCases.Records.Held.{Held, Ends-bind, Ends-lift, Ends-then, Ends-update}
use financial_data.UseCases.Records.Loading.{Result-cases, load-Keeps}

-- Neither change of a record changes its identifier or its owner.
update_same :
    (now : ℕ) (amount : Option Money) (t : Option RecordType) (c d : Option ℕ) (notes : Option Text)
    (r r' : FinancialRecord) (diff : JsonDict)
    → Record.update now amount t c d notes r ≡ ok (r', diff)
    → (r'.id ≡ r.id) × (r'.user_id ≡ r.user_id)
unfolding Record.update Record.assign compute_diff Record.snapshot
update_same now amount t c d notes r r' diff h =
    let changed = Record.assign now amount t c d notes r in
    elim (Bool-cases r.is_deleted) [
      | inl e ↦ let q = rw e at h in (cc, cc)
      | inr e ↦ elim (Result-cases (compute_diff (Record.snapshot r) (Record.snapshot changed))) [
        | inl (x, p) ↦ let q = rw (e, p) at h in (ground (arith, q), ground (arith, q))
        | inr (x, p) ↦ let q = rw (e, p) at h in (cc, cc)
      ]
    ]

soft_delete_same :
    (now u : ℕ) (r r' : FinancialRecord)
    → Record.soft_delete now u r ≡ ok r'
    → (r'.id ≡ r.id) × (r'.user_id ≡ r.user_id)
unfolding Record.soft_delete
soft_delete_same now u r r' h = elim (Bool-cases r.is_deleted) [
  | inl e ↦ let q = rw e at h in (cc, cc)
  | inr e ↦ let q = rw e at h in (ground (arith, q), ground (arith, q))
]

module _ (r : FinancialRecord) where
  Held-check : (id : Option ℕ) → Keeps (Held r) (check_category id)
  unfolding check_category load_category Categories.get_by_id
  Held-check none = search keeps_rules
  Held-check (some id) = search keeps_rules depth 16

  Held-utcnow : Keeps (Held r) utcnow
  Held-utcnow = search keeps_rules

ruleset change_rules = (fresh_rules, log_success-IsFresh)

-- The update of a record, by its owner or by somebody else, and whether it succeeds or raises, keeps
-- the state fresh: while the cache answers, every cached summary is the one of the records that are
-- committed, and of those that the session sees, and identifiers are distinct in both.
pub update_record-IsFresh :
    (dto : UpdateRecordDto) (actor : User) (meta : RequestMeta)
    → Keeps IsFresh (update_record dto actor meta)
unfolding update_record
update_record-IsFresh dto actor meta =
    Keeps-bind _ _
      (IsFresh-with_uow _ (
        load-Keeps dto.record_id (lit "records:update") actor _ (λ loaded.
          Ends-bind loaded _ _ (Held-check loaded dto.category_id) (λ checked.
            Ends-bind loaded _ _ (search keeps_rules) (λ amount.
              Ends-bind loaded _ _ (Held-utcnow loaded) (λ now. Ends-lift loaded _ _ (λ x e.
                let same =
                  update_same now amount dto.record_type dto.category_id dto.record_date dto.notes
                    loaded x.0 x.1 e in
                Ends-then loaded _ _ (Ends-update loaded x.0 same.0 same.1)
                  (λ done. search change_rules depth 20))))))))
      (λ stored. search change_rules depth 9)

-- The same of a deletion.
pub delete_record-IsFresh :
    (id : ℕ) (actor : User) (meta : RequestMeta) → Keeps IsFresh (delete_record id actor meta)
unfolding delete_record
delete_record-IsFresh id actor meta =
    Keeps-bind _ _
      (IsFresh-with_uow _ (
        load-Keeps id (lit "records:delete") actor _ (λ loaded.
          Ends-bind loaded _ _ (Held-utcnow loaded) (λ now. Ends-lift loaded _ _ (λ deleted e.
            let same = soft_delete_same now actor.id loaded deleted e in
            Ends-then loaded _ _ (Ends-update loaded deleted same.0 same.1)
              (λ done. search change_rules depth 20))))))
      (λ done. search change_rules depth 9)
