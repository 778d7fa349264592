-- ===== src/Queue/Turns.antt =====
-- One turn of a worker on the list of the messages: it takes the first that is claimable and finishes it.
use cybou_db.Prelude.{
  ℕ, suc, ◌+◌, ◌^◌, ◌<◌, ◌≡◌, ◌⊎◌, inl, inr, refl, none, some, Bool, true, false, ◌&&◌, ◌||◌, leb,
  ltb, arith, eq→==, and_true, List, [], ◌∷◌, le→leb, ltb→lt,
}
use cybou_db.Leased.Tickets.{
  Held, free, claimed, finished, Slot, Ticket, claimable, lease, finish, take_first, change, ack,
}
use cybou_db.Queue.Page.{max_word, is_finished}
use cybou_db.Queue.Ready.{can_claim}

-- A message that is finished, or can be claimed at the time with a token that can be raised.
abbrev pub workable : ℕ → Slot → Bool
workable now x =
    leb x.token max_word && (is_finished x.state || (leb x.until now && ltb x.token max_word))

abbrev pub one_left : Held → ℕ
one_left finished = 0
one_left _ = 1

-- How many messages are not finished.
unfoldable pub unfinished : List Slot → ℕ
unfinished [] = 0
unfinished (x ∷ l) = one_left x.state + unfinished l

unfoldable pub all_workable : ℕ → List Slot → Bool
all_workable now [] = true
all_workable now (x ∷ l) = workable now x && all_workable now l

-- What a turn does to a list all of whose messages are workable.
pub data Turn (now ms : ℕ) (l : List Slot) : Type 0 where
  idle : take_first now ms l ≡ none → unfinished l ≡ 0 → Turn now ms l
  turned :
      (t : Ticket) (l' l'' : List Slot)
      → take_first now ms l ≡ some (t, l')
      → t.token < 2 ^ 64
      → ack t.position t.token l' ≡ some l''
      → unfinished l ≡ suc (unfinished l'')
      → all_workable now l'' ≡ true
      → Turn now ms l

-- Either the message is finished, or it can be taken.
workable-state :
    (now : ℕ) (s : Held) (until token : ℕ)
    → (leb token max_word && (is_finished s || (leb until now && ltb token max_word))) ≡ true
    → ((can_claim s until now ≡ false) × (one_left s ≡ 0))
      ⊎ ((can_claim s until now ≡ true) × (one_left s ≡ 1) × (token < max_word))
workable-state now finished u k h = inl (refl, refl)
workable-state now free u k h =
    let both = (and_true (leb k max_word) (leb u now && ltb k max_word) h).1 in
    inr (refl, refl, ltb→lt k max_word (and_true (leb u now) (ltb k max_word) both).1)
workable-state now claimed u k h =
    let both = (and_true (leb k max_word) (leb u now && ltb k max_word) h).1 in
    let (a, b) = and_true (leb u now) (ltb k max_word) both in inr (a, refl, ltb→lt k max_word b)

Turn-none : (now ms : ℕ) → Turn now ms []
unfolding take_first unfinished
Turn-none now ms = idle refl refl

-- The first message is taken and finished.
Turn-here :
    (now ms : ℕ) (x : Slot) (l : List Slot)
    → all_workable now l ≡ true
    → claimable now x ≡ true
    → one_left x.state ≡ 1
    → x.token < max_word
    → Turn now ms (x ∷ l)
unfolding take_first unfinished all_workable change
Turn-here now ms x l w g o k =
    let t : Ticket = record { position = 0; token = suc x.token; payload = x.payload } in
    let fits = le→leb (suc x.token) max_word (omega (arith, k)) in
    turned t (lease now ms x ∷ l) (finish (lease now ms x) ∷ l) (rw g refl) (omega (arith, k))
      (rw (eq→== (suc x.token) (suc x.token) refl) refl) (rw o (omega arith)) (rw (fits, w) refl)

-- The first message is finished, so the turn is one of the rest.
Turn-there :
    (now ms : ℕ) (x : Slot) (l : List Slot)
    → workable now x ≡ true
    → claimable now x ≡ false
    → one_left x.state ≡ 0
    → Turn now ms l
    → Turn now ms (x ∷ l)
unfolding take_first unfinished all_workable change
Turn-there now ms x l w g o (idle e u) = idle (rw (g, e) refl) (rw (o, u) refl)
Turn-there now ms x l w g o (turned t l' l'' e k f u v) =
    turned (record t { position = suc t.position }) (x ∷ l') (x ∷ l'') (rw (g, e) refl) k
      (rw f refl) (rw (o, u) (omega arith)) (rw (w, v) refl)

-- In a list of workable messages there is a turn to take, unless every message is finished.
pub Turn-cases : (now ms : ℕ) (l : List Slot) → all_workable now l ≡ true → Turn now ms l
unfolding all_workable
Turn-cases now ms [] h = Turn-none now ms
Turn-cases now ms (x ∷ l) h =
    let (a, b) = and_true (workable now x) (all_workable now l) h in
    elim (workable-state now x.state x.until x.token a) [
      | inl (g, o) ↦ Turn-there now ms x l a g o (Turn-cases now ms l b)
      | inr (g, o, k) ↦ Turn-here now ms x l b g o k
    ]
