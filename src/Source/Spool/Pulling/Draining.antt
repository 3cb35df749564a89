-- ===== src/Source/Spool/Pulling/Draining.antt =====
-- `NextEvent` of internal/source/decoder.go gives back what the transaction holds, in order.
use pg_live_sync.Prelude.{
  ℕ, zero, suc, ◌≡◌, refl, sym, ap, ◌∙◌, true, false, String, Option, none, some, List, [], ◌∷◌,
  ◌++◌, length, get_elem?, is_empty,
}
use mathlib.Core.Path.{subst}
use pg_live_sync.Errclass.{Result, ok}
use pg_live_sync.Action.{Action, pure, ◌>>=◌}
use pg_live_sync.Cdc.{Event}
use pg_live_sync.Source.Messages.{
  CommittedTransaction, Decoder, PendingChange, PullState, SpoolFile,
}
use pg_live_sync.Source.Spool.{
  Codec, Host, close_pull, event_of, emit, next_change, next_event, next_spooled, next_of,
  read_line,
}
use pg_live_sync.Source.Spool.Pulling.Lines.{
  Lines, line, end, read_line_lem, drop, get_elem?-drop, get_elem?-drop_nil,
}
use pg_live_sync.Source.Spool.Pulling.Appending.{spool_bytes}

-- What a pull has still to give: the rest of the changes in memory, and then the lines of the file.
pub record Remains (codec : Codec) (pull : PullState) (rest : List PendingChange) : Type 0 where
  pub spooled : List PendingChange
  pub lines : Lines codec spooled (spool_bytes pull.spool)
  pub in_order : drop pull.seq pull.changes ++ spooled ≡ rest

-- The events of a list of changes, numbered on from a sequence number.
unfoldable pub events_of : (ℕ → String) → CommittedTransaction → ℕ → List PendingChange → List Event
events_of lsn_text commit seq [] = []
events_of lsn_text commit seq (change ∷ changes) =
    event_of lsn_text commit (suc seq) change ∷ events_of lsn_text commit (suc seq) changes

-- One event was given, and the rest remains.
pub record Gives (codec : Codec) (commit : CommittedTransaction) (seq : ℕ) (event : Event)
    (rest : List PendingChange) (r : Result (Option Event) × Decoder) : Type 0 where
  pub next : PullState
  pub gives : r.0 ≡ ok (some event)
  pub pulling : r.1.pull ≡ some next
  pub same_commit : next.commit ≡ commit
  pub counts : next.seq ≡ suc seq
  pub remains : Remains codec next rest

not_empty : (text rest : List ℕ) → ((text ++ 10 ∷ []) ++ rest ≡ []) → ⊥
not_empty [] rest h = cc
not_empty (b ∷ text) rest h = cc

is_empty-line : (text : List ℕ) → is_empty (text ++ 10 ∷ []) ≡ false
is_empty-line [] = refl
is_empty-line (b ∷ text) = refl

ends {ℓ} : {A : Type ℓ} (xs ys : List A) → xs ++ ys ≡ [] → (xs ≡ []) × (ys ≡ [])
ends [] ys h = (refl, h)
ends (x ∷ xs) ys h = cc

read_line-nil : read_line [] ≡ ([], [])
unfolding read_line
read_line-nil = refl

abbrev pub consed {ℓ} : {A : Type ℓ} → Option A → List A → List A
consed none xs = xs
consed (some x) xs = x ∷ xs

module _ {codec : Codec} (lsn_text : ℕ → String) (host : Host) (d : Decoder)
    (reads : host.read_ok ≡ true) where
  from_file :
      (pull : PullState) (spool : Option SpoolFile) {changes rest : List PendingChange}
      {bytes : List ℕ} (change : PendingChange)
      → Lines codec changes bytes
      → changes ≡ change ∷ rest
      → spool_bytes spool ≡ bytes
      → drop (suc pull.seq) pull.changes ≡ []
      → Gives codec pull.commit pull.seq
          (event_of lsn_text pull.commit (suc pull.seq) change)
          rest
          (next_spooled codec lsn_text host pull spool d)
  unfolding next_spooled emit
  from_file pull spool change end same b e = cc
  from_file pull none change (line {bytes = more} c enc ls) same b e =
      absurd (not_empty enc.line more (sym b))
  from_file pull (some file) change (line {changes = more} {bytes = left} c enc ls) same b e =
      rw
        (b, read_line_lem enc.line left enc.one_line, reads, is_empty-line enc.line, enc.unmarshals)
        (record {
          next = record pull { seq = suc pull.seq; spool = some (record file { bytes = left }) };
          gives = ap (λ x. ok (some (event_of lsn_text pull.commit (suc pull.seq) x))) (cc);
          pulling = refl;
          same_commit = refl;
          counts = refl;
          remains = record { spooled = more; lines = ls; in_order = rw e (cc) };
        })

  from_memory :
      (pull : PullState) (c change : PendingChange) (front : List PendingChange)
      {rest : List PendingChange} (h : Remains codec pull (change ∷ rest))
      → drop pull.seq pull.changes ≡ c ∷ front
      → drop (suc pull.seq) pull.changes ≡ front
      → Gives codec pull.commit pull.seq
          (event_of lsn_text pull.commit (suc pull.seq) change)
          rest
          (emit codec lsn_text pull c d)
  unfolding emit
  from_memory pull c change front h e f = record {
    next = record pull { seq = suc pull.seq };
    gives = ap (λ x. ok (some (event_of lsn_text pull.commit (suc pull.seq) x))) (cc (h.in_order));
    pulling = refl;
    same_commit = refl;
    counts = refl;
    remains = record { spooled = h.spooled; lines = h.lines; in_order = rw f (cc (h.in_order)) };
  }

  next_change-Gives :
      (pull : PullState) (front : List PendingChange) (change : PendingChange)
      {rest : List PendingChange}
      → (h : Remains codec pull (change ∷ rest)) → drop pull.seq pull.changes ≡ front
      → Gives codec pull.commit pull.seq
          (event_of lsn_text pull.commit (suc pull.seq) change)
          rest
          (next_change codec lsn_text host pull (get_elem? pull.changes pull.seq) d)
  unfolding next_change
  next_change-Gives pull [] change h e =
      let found = get_elem?-drop_nil pull.seq pull.changes e in
      rw found.0 (from_file pull pull.spool change h.lines (rw e at (h.in_order)) refl found.1)
  next_change-Gives pull (c ∷ front) change h e =
      let found = get_elem?-drop pull.seq pull.changes e in
      rw found.0 (from_memory pull c change front h e found.1)

  -- While something remains, `NextEvent` gives the next event.
  pub next_event-Gives :
      (pull : PullState) (change : PendingChange) {rest : List PendingChange}
      → d.pull ≡ some pull
      → Remains codec pull (change ∷ rest)
      → Gives codec pull.commit pull.seq
          (event_of lsn_text pull.commit (suc pull.seq) change)
          rest
          (next_event codec lsn_text host d)
  unfolding next_event
  next_event-Gives pull change {rest} pulling h =
      subst
        (λ o.
          Gives codec pull.commit pull.seq (event_of lsn_text pull.commit (suc pull.seq) change)
            rest (next_of codec lsn_text host o d))
        (sym pulling) (next_change-Gives pull (drop pull.seq pull.changes) change h refl)

  -- Once nothing remains, it closes the pull and gives none.
  drained :
      (pull : PullState) (spool : Option SpoolFile) {changes : List PendingChange} {bytes : List ℕ}
      → Lines codec changes bytes
      → changes ≡ []
      → spool_bytes spool ≡ bytes
      → next_spooled codec lsn_text host pull spool d ≡ (ok none, close_pull d)
  unfolding next_spooled
  drained pull none ls same b = refl
  drained pull (some file) end same b = rw (b, read_line-nil, reads)
  drained pull (some file) (line c enc ls) same b = cc

  pub next_event_drained :
      (pull : PullState)
      → d.pull ≡ some pull
      → Remains codec pull []
      → next_event codec lsn_text host d ≡ (ok none, close_pull d)
  unfolding next_event next_change
  next_event_drained pull pulling h =
      let (none_left, nothing) = ends (drop pull.seq pull.changes) h.spooled h.in_order in
      subst (λ o. next_of codec lsn_text host o d ≡ (ok none, close_pull d)) (sym pulling)
        (rw (get_elem?-drop_nil pull.seq pull.changes none_left).0
          (drained pull pull.spool h.lines nothing refl))

-- A number of events, one call of `NextEvent` for each, as the reader asks for them.
module _ (codec : Codec) (lsn_text : ℕ → String) (host : Host) where
  unfoldable pub next_events : ℕ → Action Decoder (List Event)
  next_events zero = pure []
  next_events (suc n) = do
    found ← next_event codec lsn_text host
    more ← next_events n
    pure (consed found more)

-- What `n` calls leave.
pub record Pulled (codec : Codec) (commit : CommittedTransaction) (events : List Event)
    (r : Result (List Event) × Decoder) : Type 0 where
  pub left : PullState
  pub gives : r.0 ≡ ok events
  pub pulling : r.1.pull ≡ some left
  pub same_commit : left.commit ≡ commit
  pub remains : Remains codec left []

pub next_events-Pulled :
    {codec : Codec} (lsn_text : ℕ → String) (host : Host) (d : Decoder)
    → host.read_ok ≡ true
    → (pull : PullState) (rest : List PendingChange) → d.pull ≡ some pull
    → Remains codec pull rest
    → Pulled codec pull.commit
        (events_of lsn_text pull.commit pull.seq rest)
        (next_events codec lsn_text host (length rest) d)
unfolding next_events events_of event_of next_event-Gives
next_events-Pulled lsn_text host d reads pull [] pulling h = record {
  left = pull;
  gives = refl;
  pulling = pulling;
  same_commit = refl;
  remains = h;
}
next_events-Pulled {codec} lsn_text host d reads pull (change ∷ rest) pulling h =
    let g = next_event-Gives lsn_text host d reads pull change pulling h in
    let r =
      next_events-Pulled lsn_text host (next_event codec lsn_text host d).1 reads g.next rest
        g.pulling g.remains in
    rw (g.gives, r.gives)
      (record {
        left = r.left;
        gives = cc (g.same_commit, g.counts);
        pulling = r.pulling;
        same_commit = r.same_commit ∙ g.same_commit;
        remains = r.remains;
      })
