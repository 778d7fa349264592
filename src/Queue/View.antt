-- ===== src/Queue/View.antt =====
-- The messages of a queue as the list that Leased.Tickets speaks of: every position below the tail, where
-- those below the head are finished.
use cybou_db.Prelude.{
  ℕ, zero, suc, ◌+◌, ◌≤◌, ◌<◌, ◌≡◌, refl, sym, ap, ap₂, ◌∙◌, subst, none, some, true, false,
  if◌then◌else◌, ltb, List, [], ◌∷◌, ◌++◌, update, update_self, update_ne, arith,
}
use cybou_db.Leased.Tickets.{Slot, finish, claimable, lease, take_first, holds, change}
use cybou_db.Queue.Page.{QueuePage}

-- So many values of a function, from an argument on.
unfoldable pub values : {A : Type 0} → ℕ → ℕ → (ℕ → A) → List A
values zero start f = []
values (suc n) start f = f start ∷ values n (suc start) f

abbrev pub seen : QueuePage → ℕ → Slot
seen q position = if ltb position q.head then finish (q.slot position) else q.slot position

abbrev pub view : QueuePage → List Slot
view q = values q.tail 0 (seen q)

pub values-same :
    {A : Type 0} (n start : ℕ) (f g : ℕ → A)
    → ((x : ℕ) → start ≤ x → x < start + n → f x ≡ g x)
    → values n start f ≡ values n start g
unfolding values
values-same zero start f g h = refl
values-same (suc n) start f g h =
    ap₂ (λ x l. x ∷ l) (h start (omega arith) (omega arith))
      (values-same n (suc start) f g (λ x a b. h x (omega arith) (omega arith)))

pub values-suc :
    {A : Type 0} (n start : ℕ) (f : ℕ → A)
    → values (suc n) start f ≡ values n start f ++ (f (start + n) ∷ [])
unfolding values
values-suc zero start f = ap (λ (x : ℕ). f x ∷ []) (omega arith)
values-suc (suc n) start f =
    ap (λ l. f start ∷ l)
      (values-suc n (suc start) f
        ∙ ap (λ (x : ℕ). values n (suc start) f ++ (f x ∷ [])) (omega arith))

values-before :
    {A : Type 0} (n start i : ℕ) (f : ℕ → A) (a : A)
    → i < start
    → values n start (update f i a) ≡ values n start f
values-before n start i f a h =
    values-same n start _ _ (λ x p r. update_ne f i x a (λ e. omega (arith, e)))

values-here :
    {A : Type 0} (n start : ℕ) (f : ℕ → A) (a : A)
    → values (suc n) start (update f start a) ≡ a ∷ values n (suc start) f
unfolding values
values-here n start f a =
    ap₂ (λ x l. x ∷ l) (update_self f start a) (values-before n (suc start) start f a (omega arith))

values-there :
    {A : Type 0} (n start p : ℕ) (f : ℕ → A) (a : A)
    → start < p
    → values (suc n) start (update f p a) ≡ f start ∷ values n (suc start) (update f p a)
unfolding values
values-there n start p f a lt =
    ap (λ x. x ∷ values n (suc start) (update f p a))
      (update_ne f p start a (λ e. omega (arith, e, lt)))

-- The value at `p` stands `i` places after the first.
pub change-values :
    (g : Slot → Slot) (token n start i p : ℕ) (f : ℕ → Slot)
    → i < n
    → start + i ≡ p
    → holds token (f p) ≡ true
    → change g i token (values n start f) ≡ some (values n start (update f p (g (f p))))
unfolding values change
change-values g token zero start i p f lt e h = absurd (omega arith)
change-values g token (suc n) start zero p f lt e h =
    let q : p ≡ start = omega (arith, e) in
    let h' : holds token (f start) ≡ true = subst (λ (x : ℕ). holds token (f x) ≡ true) q h in
    subst
      (λ (x : ℕ).
        change g 0 token (values (suc n) start f)
        ≡ some (values (suc n) start (update f x (g (f x)))))
      (sym q) (rw h' (ap some (sym (values-here n start f (g (f start))))))
change-values g token (suc n) start (suc i) p f lt e h =
    rw (change-values g token n (suc start) i p f (omega arith) (omega (arith, e)) h)
      (ap some (sym (values-there n start p f (g (f p)) (omega (arith, e)))))

pub change-values-none :
    (g : Slot → Slot) (token n start i p : ℕ) (f : ℕ → Slot)
    → start + i ≡ p
    → (i < n → holds token (f p) ≡ false)
    → change g i token (values n start f) ≡ none
unfolding values change
change-values-none g token zero start i p f e h = refl
change-values-none g token (suc n) start zero p f e h =
    let q : p ≡ start = omega (arith, e) in
    let h' : holds token (f start) ≡ false =
      subst (λ (x : ℕ). holds token (f x) ≡ false) q (h (omega arith)) in
    rw h' refl
change-values-none g token (suc n) start (suc i) p f e h =
    rw (change-values-none g token n (suc start) i p f (omega (arith, e)) (λ lt. h (omega arith)))
      refl

pub take_first-values :
    (now ms n start i p : ℕ) (f : ℕ → Slot)
    → i < n
    → start + i ≡ p
    → claimable now (f p) ≡ true
    → ((j : ℕ) → start ≤ j → j < p → claimable now (f j) ≡ false)
    → take_first now ms (values n start f)
      ≡ some (
        record { position = i; token = suc (f p).token; payload = (f p).payload },
        values n start (update f p (lease now ms (f p))),
      )
unfolding values take_first
take_first-values now ms zero start i p f lt e h before = absurd (omega arith)
take_first-values now ms (suc n) start zero p f lt e h before =
    let q : p ≡ start = omega (arith, e) in
    let h' : claimable now (f start) ≡ true = subst (λ (x : ℕ). claimable now (f x) ≡ true) q h in
    subst
      (λ (x : ℕ).
        take_first now ms (values (suc n) start f)
        ≡ some (
          record { position = 0; token = suc (f x).token; payload = (f x).payload },
          values (suc n) start (update f x (lease now ms (f x))),
        ))
      (sym q)
      (rw h' (
        ap
          (λ l.
            some (
              record { position = 0; token = suc (f start).token; payload = (f start).payload },
              l,
            ))
          (sym (values-here n start f (lease now ms (f start))))))
take_first-values now ms (suc n) start (suc i) p f lt e h before =
    rw
      (
        before start (omega arith) (omega (arith, e)),
        take_first-values now ms n (suc start) i p f (omega arith) (omega (arith, e)) h
            (λ j a b. before j (omega arith) b),
      )
      (ap
        (λ l.
          some (record { position = suc i; token = suc (f p).token; payload = (f p).payload }, l))
        (sym (values-there n start p f (lease now ms (f p)) (omega (arith, e)))))

pub take_first-values-none :
    (now ms n start : ℕ) (f : ℕ → Slot)
    → ((j : ℕ) → start ≤ j → j < start + n → claimable now (f j) ≡ false)
    → take_first now ms (values n start f) ≡ none
unfolding values take_first
take_first-values-none now ms zero start f h = refl
take_first-values-none now ms (suc n) start f h =
    rw
      (
        h start (omega arith) (omega arith),
        take_first-values-none now ms n (suc start) f (λ j a b. h j (omega arith) (omega arith)),
      )
      refl
