-- ===== src/Reader/Stream/Queueing.antt =====
-- `queueTransactionEvents` (cmd/source-reader/main.go) on a transaction that the decoder has committed.
use pg_live_sync.Prelude.{
  ◌≡◌, ◌≤◌, ◌⊎◌, inl, inr, refl, sym, ap, ◌∙◌, ℕ, zero, suc, String, true, Option, none, some, List,
  [], ◌∷◌, ◌++◌, map, length, arith,
}
use mathlib.Core.Path.{subst}
use mathlib.Core.List.{append_assoc}
use pg_live_sync.Errclass.{Result, ok, err}
use pg_live_sync.Cdc.{Event}
use pg_live_sync.Source.Messages.{Decoder, CommittedTransaction, PendingChange, PullState}
use pg_live_sync.Source.Spool.{Codec, Host, event_of, next_event}
use pg_live_sync.Source.Spool.Pulling.Draining.{Remains, events_of, next_event-Gives}
use pg_live_sync.Reader.{
  Reader, PublishWork, Selected, Links, Waiting, work_taken, event_work, end_work, send_work,
}
use pg_live_sync.Reader.Stream.{pulled, rounds_of, queue_from, queue_events}
use pg_live_sync.Reader.Stream.Sending.{
  Rejoined, Handed, OnSuccess, OnSuccess-map, OnSuccess-then, send_work-Sends,
}

-- The publisher takes each piece of work at once.
abbrev pub all_taken : ℕ → List (List Selected)
all_taken zero = (work_taken ∷ []) ∷ []
all_taken (suc n) = (work_taken ∷ []) ∷ all_taken n

abbrev Grows : Reader → Reader → Type 0
Grows r s = r.replication_rejoins ≤ s.replication_rejoins

-- The work was handed over, after what was sent before, and the decoder's pull is still open with
-- nothing in it.
pub record Complete (codec : Codec) (r : Reader) (work : List PublishWork) (next : Reader)
    : Type 0 where
  pub left : PullState
  pub hands_over : next.sent ≡ r.sent ++ work
  pub pulling : next.decoder.pull ≡ some left
  pub remains : Remains codec left []

-- An answer without an error: the work was handed over, or the reader has connected anew.
abbrev pub Delivers : Codec → Reader → List PublishWork → Waiting → Type 0
Delivers codec r work = OnSuccess (λ s. Rejoined r s ⊎ Complete codec r work s)

-- There is an answer without an error, and the work was handed over.
abbrev pub HandsOver : Codec → Reader → List PublishWork → Waiting → Type 0
HandsOver codec r work answer =
    (next : Reader) × (answer ≡ some (ok tt, next)) × Complete codec r work next

Sends-Grows : (message : PublishWork) (r s : Reader) → Rejoined r s ⊎ Handed message r s → Grows r s
Sends-Grows message r s (inl anew) = omega (arith, anew)
Sends-Grows message r s (inr (sent, kept, count)) = omega (arith, count)

Grows-trans : (r s t : Reader) → Grows r s → Grows s t → Grows r t
Grows-trans r s t h k = omega (arith, h, k)

Rejoined-Grows : (r s t : Reader) → Rejoined r s → Grows s t → Rejoined r t
Rejoined-Grows r s t h k = omega (arith, h, k)

Same-Rejoined :
    (r s t : Reader) → s.replication_rejoins ≡ r.replication_rejoins → Rejoined s t → Rejoined r t
Same-Rejoined r s t h k = omega (arith, h, k)

module _ (codec : Codec) (lsn_text : ℕ → String) (host : Host) (links : Links)
    (reads : host.read_ok ≡ true) where
  -- A transaction with one more event in front.
  Complete-first :
      (r s next : Reader) (event : Event) (work : List PublishWork)
      → s.sent ≡ r.sent ++ event_work event ∷ []
      → Complete codec s work next
      → Complete codec r (event_work event ∷ work) next
  Complete-first r s next event work same q = record {
    left = q.left;
    hands_over =
        q.hands_over ∙ ap (λ l. l ++ work) same ∙ append_assoc r.sent (event_work event ∷ []) work;
    pulling = q.pulling;
    remains = q.remains;
  }

  queue_from-HandsOver :
      (transaction : CommittedTransaction) (sequence : ℕ) (r : Reader) (pull : PullState)
      (changes : List PendingChange)
      → r.decoder.pull ≡ some pull
      → Remains codec pull changes
      → HandsOver codec r
          (map event_work (events_of lsn_text pull.commit pull.seq changes)
            ++ end_work transaction ∷ [])
          (queue_from codec lsn_text host links transaction sequence
            (length changes)
            (all_taken (length changes))
            r)
  unfolding queue_from send_work events_of
  queue_from-HandsOver transaction sequence r pull [] pulling h = (
    record r { sent = r.sent ++ end_work transaction ∷ [] },
    refl,
    record { left = pull; hands_over = refl; pulling = pulling; remains = h },
  )
  queue_from-HandsOver transaction sequence r pull (change ∷ changes) pulling h =
      let g = next_event-Gives lsn_text host r.decoder reads pull change pulling h in
      let event = event_of lsn_text pull.commit (suc pull.seq) change in
      let s : Reader = record r {
        decoder = (next_event codec lsn_text host r.decoder).1;
        sent = r.sent ++ event_work event ∷ [];
      } in
      let (next, gives, q) =
        queue_from-HandsOver transaction (suc sequence) s g.next changes g.pulling g.remains in
      rw g.gives
        (next, gives, Complete-first r s next event _ refl (rw (g.same_commit, g.counts) at q))

  -- The reader never forgets that it has connected anew.
  pulled-Grows :
      (transaction : CommittedTransaction) (sequence : ℕ) (answer : Result (Option Event))
      (next : Event → Reader → Waiting) (r : Reader)
      → ((event : Event) → OnSuccess (Grows r) (next event r))
      → OnSuccess (Grows r) (pulled codec lsn_text host links transaction sequence answer next r)
  unfolding pulled OnSuccess
  pulled-Grows transaction sequence (err e) next r k = tt
  pulled-Grows transaction sequence (ok none) next r k = tt
  pulled-Grows transaction sequence (ok (some event)) next r k = k event

  queue_from-Grows :
      (transaction : CommittedTransaction) (sequence left : ℕ) (sends : List (List Selected))
      (r : Reader)
      → OnSuccess (Grows r) (queue_from codec lsn_text host links transaction sequence left sends r)
  unfolding queue_from
  queue_from-Grows transaction sequence zero sends r =
      OnSuccess-map _
        (send_work-Sends links (end_work transaction) (rounds_of codec lsn_text host links sends) r)
        (λ s sent. Sends-Grows (end_work transaction) r s sent)
  queue_from-Grows transaction sequence (suc left) sends r =
      let (answer, decoder) = next_event codec lsn_text host r.decoder in
      let s0 : Reader = record r { decoder = decoder } in
      pulled-Grows transaction sequence answer _ s0 λ event.
        OnSuccess-then _ _ _
          (send_work-Sends links (event_work event) (rounds_of codec lsn_text host links sends) s0)
          λ s sent.
            OnSuccess-map _ (queue_from-Grows transaction (suc sequence) left _ s)
              λ t later. Grows-trans s0 s t (Sends-Grows (event_work event) s0 s sent) later

  queue_from-Delivers :
      (transaction : CommittedTransaction) (sequence : ℕ) (sends : List (List Selected))
      (r : Reader) (pull : PullState) (changes : List PendingChange)
      → r.decoder.pull ≡ some pull
      → Remains codec pull changes
      → Delivers codec r
          (map event_work (events_of lsn_text pull.commit pull.seq changes)
            ++ end_work transaction ∷ [])
          (queue_from codec lsn_text host links transaction sequence (length changes) sends r)
  unfolding queue_from events_of pulled
  queue_from-Delivers transaction sequence sends r pull [] pulling h =
      OnSuccess-map _
        (send_work-Sends links (end_work transaction) (rounds_of codec lsn_text host links sends) r)
        λ s sent. elim sent [
          | inl anew ↦ inl anew
          | inr (same, decoder, count) ↦ inr (record {
            left = pull;
            hands_over = same;
            pulling = ap (λ (d : Decoder). d.pull) decoder ∙ pulling;
            remains = h;
          })
        ]
  queue_from-Delivers transaction sequence sends r pull (change ∷ changes) pulling h =
      let g = next_event-Gives lsn_text host r.decoder reads pull change pulling h in
      let event = event_of lsn_text pull.commit (suc pull.seq) change in
      let decoder = (next_event codec lsn_text host r.decoder).1 in
      rw g.gives (
        OnSuccess-then _ _ _
          (send_work-Sends links (event_work event) (rounds_of codec lsn_text host links sends)
            (record r { decoder = decoder }))
          λ s sent. elim sent [
            | inl anew ↦
                OnSuccess-map _ (queue_from-Grows transaction (suc sequence) (length changes) _ s)
                  λ t later. inl (Rejoined-Grows r s t anew later)
            | inr (same, kept, count) ↦
                OnSuccess-map _
                  (queue_from-Delivers transaction (suc sequence) _ s g.next changes
                    (ap (λ (d : Decoder). d.pull) kept ∙ g.pulling) g.remains)
                  λ t later. elim later [
                    | inl anew ↦ inl (Same-Rejoined r s t count anew)
                    | inr q ↦
                        inr (Complete-first r s t event _ same (rw (g.same_commit, g.counts) at q))
                  ]
          ])

  -- While the spool can be read, an answer without an error says of a transaction with changes left in
  -- the decoder that it was handed over whole, each of its events in order and then its end, with
  -- the decoder's pull still open although nothing remains in it; or that a result with an error has
  -- made the reader connect anew, whatever was handed over by then. If the publisher takes each
  -- piece of work at once, there is such an answer, and the transaction was handed over.
  pub queue_events-HandsOver :
      (transaction : CommittedTransaction) (r : Reader) (pull : PullState)
      (changes : List PendingChange) (sends : List (List Selected))
      → r.decoder.pull ≡ some pull
      → pull.commit ≡ transaction
      → pull.seq ≡ 0
      → transaction.count ≡ length changes
      → Remains codec pull changes
      → let work =
          map event_work (events_of lsn_text transaction 0 changes) ++ end_work transaction ∷ [] in
        Delivers codec r work (queue_events codec lsn_text host links transaction sends r)
        × HandsOver codec r work
            (queue_events codec lsn_text host links transaction (all_taken (length changes)) r)
  unfolding queue_events
  queue_events-HandsOver transaction r pull changes sends pulling same start counted h =
      let work =
        map event_work (events_of lsn_text transaction 0 changes) ++ end_work transaction ∷ [] in
      subst
        (λ n.
          Delivers codec r work (queue_from codec lsn_text host links transaction 1 n sends r)
          × HandsOver codec r work
              (queue_from codec lsn_text host links transaction 1 n (all_taken (length changes)) r))
        (sym counted)
        (
          (rw (same, start) at (queue_from-Delivers transaction 1 sends r pull changes pulling h)),
          (rw (same, start) at (queue_from-HandsOver transaction 1 r pull changes pulling h)),
        )
