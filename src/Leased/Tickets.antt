-- ===== src/Leased/Tickets.antt =====
-- What include/cyboudb.h says of CLAIM, ACK, NACK and RENEW, on the messages of a queue in the order
-- of their positions. A finished message keeps its place here.
use cybou_db.Prelude.{
  ℕ, zero, suc, ◌+◌, Option, none, some, Bool, true, false, ◌&&◌, if◌then◌else◌, ◌==◌, leb, List,
  [], ◌∷◌,
}

pub data Held : Type 0 where
  free claimed finished : Held

abbrev pub is_claimed : Held → Bool
is_claimed claimed = true
is_claimed _ = false

pub record Slot : Type 0 where
  pub payload : List ℕ
  pub state : Held
  pub until : ℕ
  pub token : ℕ

abbrev pub queued : List ℕ → Slot
queued m = record { payload = m; state = free; until = 0; token = 0 }

-- What `cyboudb_message` and `cyboudb_claim_ticket` give after a CLAIM.
pub record Ticket : Type 0 where
  pub position : ℕ
  pub token : ℕ
  pub payload : List ℕ

-- The deadline decides when a message becomes claimable again.
abbrev pub claimable : ℕ → Slot → Bool
claimable now x = elim x.state [ free ↦ true | claimed ↦ leb x.until now | finished ↦ false ]

abbrev pub lease : ℕ → ℕ → Slot → Slot
lease now ms x = record x { state = claimed; until = now + ms; token = suc x.token }

abbrev pub later : Slot → Ticket × List Slot → Ticket × List Slot
later x (t, xs) = (record t { position = suc t.position }, x ∷ xs)

abbrev pub mapped : {A B : Type 0} → (A → B) → Option A → Option B
mapped f none = none
mapped f (some a) = some (f a)

-- The first claimable message, for so many milliseconds.
unfoldable pub take_first : ℕ → ℕ → List Slot → Option (Ticket × List Slot)
take_first now ms [] = none
take_first now ms (x ∷ xs) =
    let rest = take_first now ms xs in
    if claimable now x
    then some
        (record { position = 0; token = suc x.token; payload = x.payload }, lease now ms x ∷ xs)
    else mapped (later x) rest

-- The token decides whose acknowledgement counts.
abbrev pub holds : ℕ → Slot → Bool
holds token x = is_claimed x.state && (x.token == token)

abbrev pub finish : Slot → Slot
finish x = record x { state = finished; until = 0 }

abbrev pub hand_back : Slot → Slot
hand_back x = record x { state = free; until = 0; token = suc x.token }

abbrev pub extend : ℕ → ℕ → Slot → Slot
extend now ms x = record x { until = now + ms }

-- What the three calls share: the message at a position is changed for the one who holds it, and for
-- nobody else.
unfoldable pub change : (Slot → Slot) → ℕ → ℕ → List Slot → Option (List Slot)
change f position token [] = none
change f zero token (x ∷ xs) = if holds token x then some (f x ∷ xs) else none
change f (suc position) token (x ∷ xs) =
    mapped (λ (l : List Slot). x ∷ l) (change f position token xs)

abbrev pub ack : ℕ → ℕ → List Slot → Option (List Slot)
ack = change finish

abbrev pub nack : ℕ → ℕ → List Slot → Option (List Slot)
nack = change hand_back

abbrev pub renew : ℕ → ℕ → ℕ → ℕ → List Slot → Option (List Slot)
renew now ms = change (extend now ms)
