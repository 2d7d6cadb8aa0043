-- ===== src/Pgoutput/Stream.antt =====
-- `feed` of src/pgoutput.rs on a stream of messages.
use nabla.Base.{
  ℕ, ◌^◌, ◌<◌, ◌≡◌, refl, ap, ◌∙◌, List, [], ◌∷◌, ◌++◌, map, append_assoc, append-nil, none, some,
  All, Result, ok, ◌>>=◌,
}
use mathlib.Core.Path.{fun_ext}
use nabla.Pgoutput.Types.{Error, Message, Change, SourceTransaction}
use nabla.Pgoutput.Decode.{decode}
use nabla.Pgoutput.Decoder.{Relations, Decoder, learn, push, absorb, feed, feed_all}
use nabla.Pgoutput.Encode.{encode, Fits}
use nabla.Pgoutput.RoundTrip.{decode-encode}

-- What the database sends for one transaction: `body` lies between BEGIN and COMMIT.
pub record Sent : Type 0 where
  pub xid : ℕ
  pub final_lsn : ℕ
  pub commit_lsn : ℕ
  pub end_lsn : ℕ
  pub body : List Message

abbrev pub IsInner : Message → Type 0
IsInner (Message.begin _ _) = ⊥
IsInner (Message.commit _ _) = ⊥
IsInner _ = Unit

abbrev pub messages : Sent → List Message
messages t =
    Message.begin t.final_lsn t.xid ∷ (t.body ++ (Message.commit t.commit_lsn t.end_lsn ∷ []))

abbrev pub all_messages : List Sent → List Message
all_messages [] = []
all_messages (t ∷ ts) = messages t ++ all_messages ts

-- The row changes among some messages, in order, and the relations that they announce.
abbrev pub changes_of : List Message → List Change
changes_of [] = []
changes_of (Message.insert relid new ∷ ms) = Change.insert relid new ∷ changes_of ms
changes_of (Message.update relid old new ∷ ms) = Change.update relid old new ∷ changes_of ms
changes_of (Message.delete relid kind old ∷ ms) = Change.delete relid kind old ∷ changes_of ms
changes_of (Message.truncate relids ∷ ms) = Change.truncate relids ∷ changes_of ms
changes_of (_ ∷ ms) = changes_of ms

abbrev pub learned : Relations → List Message → Relations
learned known [] = known
learned known (Message.relation r ∷ ms) = learned (learn known r) ms
learned known (_ ∷ ms) = learned known ms

abbrev pub received : Sent → SourceTransaction
received t = record {
  xid = t.xid;
  commit_lsn = t.commit_lsn;
  end_lsn = t.end_lsn;
  changes = changes_of t.body;
}

abbrev absorb_all : List Message → Decoder → Result Error Decoder
absorb_all [] d = ok d
absorb_all (m ∷ ms) d = absorb m d >>= absorb_all ms

-- The decoder inside a transaction whose changes so far are `cs`.
abbrev inside : Relations → List SourceTransaction → ℕ → ℕ → List Change → Decoder
inside known done xid lsn cs = record {
  relations = known;
  current = some (record { xid = xid; commit_lsn = lsn; end_lsn = 0; changes = cs });
  complete = done;
}

abbrev between : Relations → List SourceTransaction → Decoder
between known done = record { relations = known; current = none; complete = done }

module _ (done : List SourceTransaction) (xid lsn commit_lsn end_lsn : ℕ)
    (rest : List Message) where
  absorb-body :
      (ms : List Message) (known : Relations) (cs : List Change)
      → All IsInner ms
      → absorb_all (ms ++ (Message.commit commit_lsn end_lsn ∷ rest)) (inside known done xid lsn cs)
        ≡ absorb_all rest (
            between (learned known ms) (
              done
              ++ (record {
                xid = xid;
                commit_lsn = commit_lsn;
                end_lsn = end_lsn;
                changes = cs ++ changes_of ms;
              }
                  ∷ [])))
  unfolding absorb push
  absorb-body [] known cs h = rw append-nil
  absorb-body (Message.begin _ _ ∷ ms) known cs h = absurd h.0
  absorb-body (Message.commit _ _ ∷ ms) known cs h = absurd h.0
  absorb-body (Message.relation r ∷ ms) known cs h = absorb-body ms (learn known r) cs h.1
  absorb-body (Message.insert relid new ∷ ms) known cs h =
      absorb-body ms known (cs ++ (Change.insert relid new ∷ [])) h.1 ∙ rw append_assoc
  absorb-body (Message.update relid old new ∷ ms) known cs h =
      absorb-body ms known (cs ++ (Change.update relid old new ∷ [])) h.1 ∙ rw append_assoc
  absorb-body (Message.delete relid kind old ∷ ms) known cs h =
      absorb-body ms known (cs ++ (Change.delete relid kind old ∷ [])) h.1 ∙ rw append_assoc
  absorb-body (Message.truncate relids ∷ ms) known cs h =
      absorb-body ms known (cs ++ (Change.truncate relids ∷ [])) h.1 ∙ rw append_assoc
  absorb-body (Message.ignored kind ∷ ms) known cs h = absorb-body ms known cs h.1

learned-commit :
    (ms : List Message) (known : Relations) (lsn end_lsn : ℕ) (rest : List Message)
    → learned known (ms ++ (Message.commit lsn end_lsn ∷ rest)) ≡ learned (learned known ms) rest
learned-commit [] known lsn end_lsn rest = refl
learned-commit (Message.relation r ∷ ms) known lsn end_lsn rest =
    learned-commit ms (learn known r) lsn end_lsn rest
learned-commit (_ ∷ ms) known lsn end_lsn rest = learned-commit ms known lsn end_lsn rest

absorb-transaction :
    (t : Sent) (rest : List Message) (known : Relations) (done : List SourceTransaction)
    → All IsInner t.body
    → absorb_all (messages t ++ rest) (between known done)
      ≡ absorb_all rest (between (learned known t.body) (done ++ (received t ∷ [])))
unfolding absorb
absorb-transaction t rest known done inner =
    rw append_assoc
      (absorb-body done t.xid t.final_lsn t.commit_lsn t.end_lsn rest t.body known [] inner)

absorb-messages :
    (ts : List Sent) (known : Relations) (done : List SourceTransaction)
    → All (λ t. All IsInner t.body) ts
    → absorb_all (all_messages ts) (between known done)
      ≡ ok (between (learned known (all_messages ts)) (done ++ map received ts))
absorb-messages [] known done h = rw append-nil
absorb-messages (t ∷ ts) known done (inner, h) =
    absorb-transaction t (all_messages ts) known done inner
    ∙ absorb-messages ts (learned known t.body) (done ++ (received t ∷ [])) h
    ∙ rw (append_assoc, append_assoc, learned-commit)

feed_all_step :
    (bytes : List ℕ) (m : Message) (rows : List (List ℕ)) (d : Decoder)
    → decode bytes ≡ ok m
    → feed_all (bytes ∷ rows) d ≡ (absorb m d >>= feed_all rows)
unfolding feed_all feed
feed_all_step bytes m rows d e = rw e

-- A message as it is sent, with the fields that the decoder skips: its time and its flags.
pub record Frame : Type 0 where
  pub ts : ℕ
  pub flags : ℕ
  pub message : Message

abbrev pub bytes_of : Frame → List ℕ
bytes_of f = encode f.ts f.flags f.message

abbrev pub FitsFrame : Frame → Type 0
FitsFrame f = (f.ts < 2 ^ 64) × (f.flags < 256) × Fits f.message

abbrev pub framed : List Frame → List Message
framed = map (λ f. f.message)

feed_all-encode :
    (fs : List Frame) (d : Decoder)
    → All FitsFrame fs
    → feed_all (map bytes_of fs) d ≡ absorb_all (framed fs) d
feed_all-encode [] d h = unfold feed_all in refl
feed_all-encode (f ∷ fs) d ((a, b, fits), h) =
    feed_all_step (bytes_of f) f.message (map bytes_of fs) d
      (rw append-nil at (decode-encode f.ts f.flags f.message [] a b fits))
    ∙ ap (λ k. absorb f.message d >>= k) (fun_ext λ d'. feed_all-encode fs d' h)

-- A stream of whole transactions, each of its messages with a time and flags of its own, comes out as those
-- transactions, complete and in order, each with the row changes between its BEGIN and its COMMIT and the positions of
-- its COMMIT; nothing stays open, and the relations announced on the way are learned.
pub feed_all-transactions :
    (fs : List Frame) (sent : List Sent) (known : Relations) (done : List SourceTransaction)
    → framed fs ≡ all_messages sent
    → All (λ t. All IsInner t.body) sent
    → All FitsFrame fs
    → feed_all (map bytes_of fs) (record { relations = known; current = none; complete = done })
      ≡ ok (record {
        relations = learned known (all_messages sent);
        current = none;
        complete = done ++ map received sent;
      })
feed_all-transactions fs sent known done same inner fits =
    feed_all-encode fs (between known done) fits
    ∙ (ap (λ ms. absorb_all ms (between known done)) same ∙ absorb-messages sent known done inner)
