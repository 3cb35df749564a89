-- ===== src/Source/Spool/Limits.antt =====
-- The memory bound of `append` (internal/source/decoder.go).
use pg_live_sync.Prelude.{
  ℕ, ◌≤◌, ◌≡◌, refl, Option, none, some, [], ◌∷◌, arith, length, length-append,
}
use pg_live_sync.Action.Keeps.{Keeps}
use pg_live_sync.Source.Messages.{Decoder, PendingChange, PendingTransaction}
use pg_live_sync.Source.Spool.{Codec, Host, append, append_to, close_pull, open_spool, reset}

-- How many changes an open transaction keeps in memory.
abbrev pub in_memory : Option PendingTransaction → ℕ
in_memory none = 0
in_memory (some transaction) = length transaction.mem

-- The open transaction keeps at most `spool_cap` changes in memory.
abbrev pub FitsMemory : Decoder → Type 0
FitsMemory d = in_memory d.transaction ≤ d.spool_cap

module _ (codec : Codec) (host : Host) where
  append_to-FitsMemory :
      (change : PendingChange) (t : Option PendingTransaction) (d : Decoder)
      → in_memory t ≤ d.spool_cap
      → d.transaction ≡ t
      → FitsMemory (append_to codec host change t d).1
  unfolding append_to open_spool
  append_to-FitsMemory change none d h e = rw e h
  append_to-FitsMemory change (some t) d h e = ground (arith, length-append t.mem (change ∷ []))

  pub append-FitsMemory : (change : PendingChange) → Keeps FitsMemory (append codec host change)
  unfolding append
  append-FitsMemory change = record {
    after = λ d h. append_to-FitsMemory change d.transaction d h refl;
  }

pub close_pull-FitsMemory : (d : Decoder) → FitsMemory d → FitsMemory (close_pull d)
unfolding close_pull
close_pull-FitsMemory d h = ground arith

pub reset-FitsMemory : (d : Decoder) → FitsMemory (reset d)
unfolding reset
reset-FitsMemory d = omega arith
