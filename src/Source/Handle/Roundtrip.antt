-- ===== src/Source/Handle/Roundtrip.antt =====
-- From `append` through the commit message to `NextEvent` (internal/source/decoder.go).
use pg_live_sync.Prelude.{
  ℕ, ◌+◌, ◌≡◌, refl, sym, ap, true, String, Option, none, some, List, [], arith, length,
  length-append, All, inr,
}
use mathlib.Core.Path.{subst}
use pg_live_sync.Errclass.{ok}
use pg_live_sync.Action.{Action, ◌>>=◌, ◌>>◌}
use pg_live_sync.Cdc.{Event}
use pg_live_sync.Source.Messages.{
  CommittedTransaction, Decoder, PendingChange, PendingTransaction, PullState, SpoolFile,
}
use pg_live_sync.Source.Spool.{Codec, Host}
use pg_live_sync.Source.Spool.Pulling.Lines.{Encodes, end}
use pg_live_sync.Source.Spool.Pulling.Appending.{Holds, append_all, append_all-Grows}
use pg_live_sync.Source.Spool.Pulling.Draining.{Pulled, events_of, next_events, next_events-Pulled}
use pg_live_sync.Source.Handle.{on_begin, on_commit, commit_with, pull_of, rewind}

abbrev pub count_of : Option CommittedTransaction → ℕ
count_of none = 0
count_of (some commit) = commit.count

-- One source transaction: its begin message, its changes, its commit message, and then the events
-- that the reader pulls.
unfoldable pub transaction_events :
    Codec → (ℕ → String) → Host → ℕ → List PendingChange → ℕ → ℕ → ℕ → Action Decoder (List Event)
transaction_events codec lsn_text host xid changes commit_lsn end_lsn commit_time = do
  started ← on_begin xid
  append_all codec host changes
  commit ← on_commit codec host commit_lsn end_lsn commit_time
  next_events codec lsn_text host (count_of commit)

-- The descriptor of a transaction with these changes.
abbrev pub committed : ℕ → ℕ → ℕ → ℕ → List PendingChange → CommittedTransaction
committed xid commit_lsn end_lsn commit_time changes = record {
  transaction_id = xid;
  commit_lsn = commit_lsn;
  end_lsn = end_lsn;
  commit_time = commit_time;
  count = length changes;
}

rewinds :
    (codec : Codec) (host : Host) (pull : PullState) (file : Option SpoolFile) (d : Decoder)
    → host.seek_ok ≡ true
    → rewind codec host pull file d ≡ (ok (some pull.commit), d)
unfolding rewind
rewinds codec host pull none d seeks = refl
rewinds codec host pull (some file) d seeks = rw seeks

commits :
    (codec : Codec) (host : Host) (d : Decoder) (t : PendingTransaction)
    (commit_lsn end_lsn commit_time : ℕ)
    → host.seek_ok ≡ true
    → d.transaction ≡ some t
    → let pull = pull_of codec host commit_lsn end_lsn commit_time t in
      on_commit codec host commit_lsn end_lsn commit_time d
      ≡ (ok (some pull.commit), record d { transaction = none; pull = some pull })
unfolding on_commit commit_with
commits codec host d t commit_lsn end_lsn commit_time seeks started =
    subst
      (λ o. commit_with codec host commit_lsn end_lsn commit_time o d ≡ (
        ok (some (pull_of codec host commit_lsn end_lsn commit_time t).commit),
        record d {
          transaction = none;
          pull = some (pull_of codec host commit_lsn end_lsn commit_time t);
        },
      ))
      (sym started)
      (rewinds codec host (pull_of codec host commit_lsn end_lsn commit_time t) t.spool _ seeks)

count_lem :
    {codec : Codec} {cap : ℕ} {t : PendingTransaction} {changes : List PendingChange}
    → Holds codec cap t changes
    → length t.mem + t.spool_n ≡ length changes
count_lem {t} h =
    omega
      (arith, h.counted, length-append t.mem h.spooled, ap (length {A = PendingChange}) h.in_order)

-- What the calls after the begin message give.
module _ (codec : Codec) (lsn_text : ℕ → String) (host : Host) {path : String}
    (named : host.temp_name ≡ some path) (writes : host.write_ok ≡ true)
    (seeks : host.seek_ok ≡ true) (reads : host.read_ok ≡ true) where
  pull_committed :
      (d : Decoder) (t : PendingTransaction) (limit commit_lsn end_lsn commit_time : ℕ)
      (changes : List PendingChange)
      → d.transaction ≡ some t
      → Holds codec limit t changes
      → let pulled =
          (on_commit codec host commit_lsn end_lsn commit_time >>= λ commit.
          next_events codec lsn_text host (count_of commit))
            d in
        Pulled codec
          (committed t.id commit_lsn end_lsn commit_time changes)
          (events_of lsn_text (committed t.id commit_lsn end_lsn commit_time changes) 0 changes)
          pulled
  unfolding pull_of
  pull_committed d t limit commit_lsn end_lsn commit_time changes started h =
      let pull : PullState = record {
        commit = committed t.id commit_lsn end_lsn commit_time changes;
        changes = t.mem;
        spool = t.spool;
        seq = 0;
      } in
      rw (commits codec host d t commit_lsn end_lsn commit_time seeks started, count_lem h)
        (next_events-Pulled lsn_text host (record d { transaction = none; pull = some pull }) reads
          pull changes refl
          (record { spooled = h.spooled; lines = h.lines; in_order = h.in_order }))

  -- A source transaction of any size, kept in memory up to the cap and spooled beyond it: where the
  -- changes can be encoded as JSON lines and the file system works, the events pulled after the
  -- commit message are its changes, all of them, in order, numbered from 1, with the transaction's
  -- data and the number of its changes.
  pub transaction_events_lem :
      (d : Decoder) (xid commit_lsn end_lsn commit_time : ℕ) (changes : List PendingChange)
      → d.transaction ≡ none
      → All (Encodes codec) changes
      → (transaction_events codec lsn_text host xid changes commit_lsn end_lsn commit_time d).0
        ≡ ok (events_of lsn_text (committed xid commit_lsn end_lsn commit_time changes) 0 changes)
  unfolding transaction_events on_begin
  transaction_events_lem d xid commit_lsn end_lsn commit_time changes idle es =
      let t : PendingTransaction = record { id = xid; mem = []; spool = none; spool_n = 0 } in
      let begun : Decoder = record d { transaction = some t } in
      let g =
        append_all-Grows host begun named writes d.spool_cap t changes [] refl refl es (record {
          spooled = [];
          lines = end;
          counted = refl;
          in_order = refl;
          full_first = inr refl;
        }) in
      let p =
        pull_committed (append_all codec host changes begun).1 g.next d.spool_cap commit_lsn end_lsn
          commit_time changes g.opened g.holds in
      rw (idle, g.succeeds) (rw g.same_id at (p.gives))
