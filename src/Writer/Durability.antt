-- ===== src/Writer/Durability.antt =====
-- `closeGroup` and `shutdown` of cmd/destination-writer/main.go: the offset that is committed to Kafka
-- never runs ahead of the destination.
use pg_live_sync.Prelude.{◌≡◌, refl, ◌∙◌, suc, ◌⊎◌, inl, inr, Option, none, some}
use pg_live_sync.Errclass.{Error, Result, ok, err}
use pg_live_sync.Action.{continue}
use pg_live_sync.Action.Keeps.{Keeps, Keeps-fail, Keeps-bind}
use pg_live_sync.Retry.{do_retry, default}
use pg_live_sync.Destination.Database.{Database}
use pg_live_sync.Writer.{
  GroupState, Writer, Services, offset_outcome, commit_kafka_offset, commit_destination_transaction,
  close_group,
}
use pg_live_sync.Writer.Keeping.{Keeps-commit_destination_transaction}

module _ (D : Database) (services : Services D) where
  module _ (Q : Option GroupState → Type 0) where
    Keeps-offset_outcome :
        (g : GroupState) (r : Result (Unit {0})) (ended : Option Error)
        → Keeps (λ (s : Writer D). Q s.group) (offset_outcome D services g r ended)
    unfolding offset_outcome
    Keeps-offset_outcome g (ok _) ended = record { after = λ s h. h }
    Keeps-offset_outcome g (err e) none = Keeps-fail _
    Keeps-offset_outcome g (err e) (some ended) = Keeps-fail _

    pub Keeps-close_group :
        (g : GroupState) → Keeps (λ (s : Writer D). Q s.group) (close_group D services g)
    unfolding close_group commit_kafka_offset
    Keeps-close_group g =
        Keeps-bind (commit_destination_transaction D services g)
          (λ _. commit_kafka_offset D services g)
          (Keeps-commit_destination_transaction D services (λ group _. Q group) g)
          (λ _. Keeps-offset_outcome g _ _)

  -- The only two ways in which the committed offset may move.
  unfoldable pub IsDurable : GroupState → Writer D → Writer D → Type 0
  IsDurable g s s' =
      (s'.committed ≡ s.committed)
      ⊎ ((s'.committed ≡ suc g.last_record)
          × ((commit_destination_transaction D services g s).0 ≡ ok tt)
          × ((do_retry default "commit Kafka offset" services.commit_attempt).0 ≡ ok tt))

  outcome-committed :
      (g : GroupState) (r : Result (Unit {0})) (ended : Option Error) (s : Writer D)
      → let s' = (offset_outcome D services g r ended s).1 in
        (s'.committed ≡ s.committed) ⊎ ((s'.committed ≡ suc g.last_record) × (r ≡ ok tt))
  unfolding offset_outcome
  outcome-committed g (ok tt) ended s = inr (refl, refl)
  outcome-committed g (err e) none s = inl refl
  outcome-committed g (err e) (some ended) s = inl refl

  after_commit :
      (g : GroupState) (r : Result (Unit {0})) (s s' : Writer D)
      → (commit_destination_transaction D services g s).0 ≡ r
      → s'.committed ≡ s.committed
      → IsDurable g s (continue r (λ _. commit_kafka_offset D services g) s').1
  unfolding IsDurable commit_kafka_offset
  after_commit g (err e) s s' at same = inl same
  after_commit g (ok tt) s s' at same =
      elim (outcome-committed g (do_retry default "commit Kafka offset" services.commit_attempt).0
        services.context_error s') [
          | inl kept ↦ inl (kept ∙ same)
          | inr (moved, acknowledged) ↦ inr (moved, at, acknowledged)
        ]

  -- After `closeGroup` the offset committed to Kafka is the one from before, or the one after the
  -- group's last record; the latter only if the group's destination transaction was dealt with
  -- without an error and one of the tries to commit the offset succeeded.
  pub close_group-IsDurable :
      (g : GroupState) (s : Writer D) → IsDurable g s (close_group D services g s).1
  unfolding close_group
  close_group-IsDurable g s =
      after_commit g _ s (commit_destination_transaction D services g s).1 refl (
        (Keeps-commit_destination_transaction D services
            (λ group committed. committed ≡ s.committed) g).after
          s refl)
