-- ===== src/Source/Spool/Pulling/Appending.antt =====
-- `append` of internal/source/decoder.go keeps every change, in order.
use pg_live_sync.Prelude.{
  ◌⊎◌, ℕ, ◌+◌, ltb, ◌≡◌, refl, sym, ◌∙◌, true, false, Bool-cases, inl, inr, String, Option, none,
  some, List, [], ◌∷◌, ◌++◌, arith, length, length-append, All,
}
use mathlib.Core.Path.{subst}
use mathlib.Core.List.{append-nil, append_assoc}
use pg_live_sync.Errclass.{Result, ok}
use pg_live_sync.Action.{Action, pure, ◌>>◌}
use pg_live_sync.Source.Messages.{Decoder, PendingChange, PendingTransaction, SpoolFile}
use pg_live_sync.Source.Spool.{Codec, Host, append, append_to}
use pg_live_sync.Source.Spool.Pulling.Lines.{Encodes, Lines, Lines-append}

-- The bytes of a spool, where none stands for a file not yet made.
abbrev pub spool_bytes : Option SpoolFile → List ℕ
spool_bytes none = []
spool_bytes (some file) = file.bytes

-- The changes of an open transaction: those in memory, and then the lines of the file. The file is
-- used only once the memory is full.
pub record Holds (codec : Codec) (cap : ℕ) (t : PendingTransaction) (changes : List PendingChange)
    : Type 0 where
  pub spooled : List PendingChange
  pub lines : Lines codec spooled (spool_bytes t.spool)
  pub counted : t.spool_n ≡ length spooled
  pub in_order : t.mem ++ spooled ≡ changes
  pub full_first : (ltb (length t.mem) cap ≡ false) ⊎ (spooled ≡ [])

-- What a call of `append` leaves: the transaction with these changes.
pub record Grows (codec : Codec) (cap id : ℕ) (changes : List PendingChange)
    (r : Result (Unit {0}) × Decoder) : Type 0 where
  pub next : PendingTransaction
  pub succeeds : r.0 ≡ ok tt
  pub opened : r.1.transaction ≡ some next
  pub same_id : next.id ≡ id
  pub same_cap : r.1.spool_cap ≡ cap
  pub holds : Holds codec cap next changes

module _ (codec : Codec) (host : Host) where
  -- The decoder appends these changes, one after another.
  unfoldable pub append_all : List PendingChange → Action Decoder Unit
  append_all [] = pure tt
  append_all (change ∷ changes) = do append codec host change; append_all changes

in_order_memory {ℓ} :
    {A : Type ℓ} (mem spooled changes : List A) (c : A)
    → mem ++ spooled ≡ changes
    → spooled ≡ []
    → (mem ++ c ∷ []) ++ spooled ≡ changes ++ c ∷ []
in_order_memory mem spooled changes c h p = cc (append-nil mem, append-nil (mem ++ c ∷ []))

in_order_file {ℓ} :
    {A : Type ℓ} (mem spooled changes : List A) (c : A)
    → mem ++ spooled ≡ changes
    → mem ++ (spooled ++ c ∷ []) ≡ changes ++ c ∷ []
in_order_file mem spooled changes c h = cc (append_assoc mem spooled (c ∷ []))

-- Nothing is in the file while there is room in memory.
nothing_spooled :
    {codec : Codec} {cap : ℕ} {t : PendingTransaction} {changes : List PendingChange}
    (h : Holds codec cap t changes)
    → ltb (length t.mem) cap ≡ true
    → h.spooled ≡ []
nothing_spooled h fits = elim h.full_first [ inl full ↦ cc | inr p ↦ p ]

spool_grows :
    {codec : Codec} {cap id n : ℕ} {mem changes : List PendingChange} {spool : Option SpoolFile}
    {path : String} (change : PendingChange) (e : Encodes codec change)
    → ltb (length mem) cap ≡ false
    → Holds codec cap (record { id = id; mem = mem; spool = spool; spool_n = n }) changes
    → Holds codec cap
        (record {
          id = id;
          mem = mem;
          spool = some (record { path = path; bytes = spool_bytes spool ++ (e.line ++ 10 ∷ []) });
          spool_n = n + 1;
        })
        (changes ++ change ∷ [])
spool_grows {mem} {changes} change e full h = record {
  spooled = h.spooled ++ change ∷ [];
  lines = Lines-append change e h.lines;
  counted = omega (arith, length-append h.spooled (change ∷ []), h.counted);
  in_order = in_order_file mem h.spooled changes change h.in_order;
  full_first = inl full;
}

module _ {codec : Codec} (host : Host) {path : String} (d : Decoder)
    (named : host.temp_name ≡ some path) (writes : host.write_ok ≡ true) where
  append_to_memory :
      (t : PendingTransaction) (change : PendingChange) {changes : List PendingChange}
      → ltb (length t.mem) d.spool_cap ≡ true
      → Holds codec d.spool_cap t changes
      → Grows codec d.spool_cap t.id
          (changes ++ change ∷ [])
          (append_to codec host change (some t) d)
  unfolding append_to
  append_to_memory t change {changes} fits h = rw fits (record {
    next = record t { mem = t.mem ++ change ∷ [] };
    succeeds = refl;
    opened = refl;
    same_id = refl;
    same_cap = refl;
    holds = record {
      spooled = h.spooled;
      lines = h.lines;
      counted = h.counted;
      in_order = in_order_memory t.mem h.spooled changes change h.in_order (nothing_spooled h fits);
      full_first = inr (nothing_spooled h fits);
    };
  })

  append_to_file :
      (id : ℕ) (mem : List PendingChange) (n : ℕ) (spool : Option SpoolFile)
      (change : PendingChange) {changes : List PendingChange}
      → ltb (length mem) d.spool_cap ≡ false
      → Encodes codec change
      → Holds codec d.spool_cap (record { id = id; mem = mem; spool = spool; spool_n = n }) changes
      → Grows codec d.spool_cap id (changes ++ change ∷ []) (
          append_to codec host change
            (some (record { id = id; mem = mem; spool = spool; spool_n = n }))
            d)
  unfolding append_to
  append_to_file id mem n none change full e h =
      rw (full, named, e.marshals, writes)
        (record {
          next = record {
            id = id;
            mem = mem;
            spool = some (record { path = path; bytes = e.line ++ 10 ∷ [] });
            spool_n = n + 1;
          };
          succeeds = refl;
          opened = refl;
          same_id = refl;
          same_cap = refl;
          holds = spool_grows change e full h;
        })
  append_to_file id mem n (some file) change full e h =
      rw (full, e.marshals, writes)
        (record {
          next = record {
            id = id;
            mem = mem;
            spool = some (record file { bytes = file.bytes ++ (e.line ++ 10 ∷ []) });
            spool_n = n + 1;
          };
          succeeds = refl;
          opened = refl;
          same_id = refl;
          same_cap = refl;
          holds = spool_grows change e full h;
        })

  append_some-Grows :
      (t : PendingTransaction) (change : PendingChange) {changes : List PendingChange}
      → Encodes codec change
      → Holds codec d.spool_cap t changes
      → Grows codec d.spool_cap t.id
          (changes ++ change ∷ [])
          (append_to codec host change (some t) d)
  append_some-Grows t change e h = elim (Bool-cases (ltb (length t.mem) d.spool_cap)) [
    | inl fits ↦ append_to_memory t change fits h
    | inr full ↦ append_to_file t.id t.mem t.spool_n t.spool change full e h
  ]

  append-Grows :
      (cap : ℕ) (t : PendingTransaction) (change : PendingChange) {changes : List PendingChange}
      → d.spool_cap ≡ cap
      → d.transaction ≡ some t
      → Encodes codec change
      → Holds codec cap t changes
      → Grows codec cap t.id (changes ++ change ∷ []) (append codec host change d)
  unfolding append
  append-Grows cap t change {changes} capped started e =
      subst
        (λ c.
          Holds codec c t changes
          → Grows codec c t.id (changes ++ change ∷ []) (append codec host change d))
        capped
        (λ h.
          subst
            (λ o.
              Grows codec d.spool_cap t.id (changes ++ change ∷ [])
                (append_to codec host change o d))
            (sym started) (append_some-Grows t change e h))

-- All changes are kept, whatever part of them went to the file.
pub append_all-Grows :
    {codec : Codec} (host : Host) {path : String} (d : Decoder)
    → host.temp_name ≡ some path
    → host.write_ok ≡ true
    → (cap : ℕ) (t : PendingTransaction) (new old : List PendingChange) → d.spool_cap ≡ cap
    → d.transaction ≡ some t
    → All (Encodes codec) new
    → Holds codec cap t old
    → Grows codec cap t.id (old ++ new) (append_all codec host new d)
unfolding append_all
append_all-Grows host d named writes cap t [] old capped started es h = record {
  next = t;
  succeeds = refl;
  opened = started;
  same_id = refl;
  same_cap = capped;
  holds = rw append-nil h;
}
append_all-Grows {codec} host d named writes cap t (change ∷ new) old capped started es h =
    let g = append-Grows host d named writes cap t change capped started es.0 h in
    let r =
      append_all-Grows host (append codec host change d).1 named writes cap g.next new
        (old ++ change ∷ []) g.same_cap g.opened es.1 g.holds in
    rw g.succeeds (record {
      next = r.next;
      succeeds = r.succeeds;
      opened = r.opened;
      same_id = r.same_id ∙ g.same_id;
      same_cap = r.same_cap;
      holds = rw append_assoc at (r.holds);
    })
