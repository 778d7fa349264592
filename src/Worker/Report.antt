-- ===== src/Worker/Report.antt =====
-- The reader of the audit stream is given its records in their order.
use cybou_db.Prelude.{
  ℕ, zero, suc, ◌≤◌, ◌<◌, ◌≡◌, ◌≢◌, inl, inr, refl, sym, ap, ◌∙◌, subst, ◌++◌, Option, none, some,
  arith, ◌==◌, List, [], ◌∷◌, length, get_elem?, length-append, Bool-cases, ==→eq, ==→ne,
}
use mathlib.Core.List.{append_assoc, append-nil}
use cybou_db.Api.Codes.{row_code}
use cybou_db.Api.Sql.{read_audit}
use cybou_db.Api.View.{View, or_saved, current, write, write_to}
use cybou_db.Api.Database.{Store, Database, Contract, Reliable}
use cybou_db.Worker.Loop.{report}

-- What the stores say of the jobs, whatever the reader has been given.
pub record Jobs : Type 0 where
  pub inbox : List (List ℕ)
  pub results : List (ℕ × List ℕ)
  pub audit : List (List ℕ)

abbrev pub jobs_of : Store → Jobs
jobs_of t = record { inbox = t.inbox; results = t.results; audit = t.audit }

get_elem?-append :
    {A : Type 0} (xs : List A) (x : A) (ys : List A)
    → get_elem? (xs ++ (x ∷ ys)) (length xs) ≡ some x
get_elem?-append [] x ys = refl
get_elem?-append (a ∷ xs) x ys = get_elem?-append xs x ys

get_elem?-end : {A : Type 0} (xs : List A) → get_elem? xs (length xs) ≡ none
get_elem?-end [] = refl
get_elem?-end (a ∷ xs) = get_elem?-end xs

some-ne-none : {A : Type 0} {x : A} → some x ≢ none
some-ne-none e = absurd (ground arith)

ended :
    {A : Type 0} (seen rest : List A) → get_elem? (seen ++ rest) (length seen) ≡ none → rest ≡ []
ended seen [] e = refl
ended seen (m ∷ rest) e = absurd (some-ne-none (sym (get_elem?-append seen m rest) ∙ e))

some_same : {A : Type 0} {x y : A} → some x ≡ some y → x ≡ y
some_same e = cc

abbrev pub Short : List (List ℕ) → Type 0
Short [] = Unit
Short (m ∷ rest) = (length m ≤ 255) × Short rest

-- A cursor that moves is no change of the jobs.
jobs_of-write :
    (v : View Store) (o : Option Store) (j : Jobs) (c : ℕ)
    → jobs_of v.saved ≡ j
    → jobs_of (or_saved o v.saved) ≡ j
    → v.staged ≡ o
    → let w = write_to o (record (or_saved o v.saved) { cursor = c }) v in
      (jobs_of w.saved ≡ j)
      × (jobs_of (current w) ≡ j)
      × ((current w).cursor ≡ c)
      × (w.live ≡ v.live)
jobs_of-write v none j c a b e = (
  a,
  subst (λ (x : Option Store). jobs_of (or_saved x (record v.saved { cursor = c })) ≡ j) (sym e) a,
  ap (λ (x : Option Store). (or_saved x (record v.saved { cursor = c })).cursor) e,
  refl,
)
jobs_of-write v (some u) j c a b e = (a, b, refl, refl)

module _ (d : Database) (k : Contract d) where
  -- What is printed is the front of the stream, and all of it on a machine that fails no call.
  pub record Reported (j : Jobs) (n : ℕ) (st : d.Stmt) (r : ℕ × List (List ℕ) × d.State)
      : Type 0 where
    pub answers : r.0 ≡ 0
    pub unread : List (List ℕ)
    pub in_order : r.1 ++ unread ≡ j.audit
    pub all_read : Reliable d k → unread ≡ []
    pub jobs_same : jobs_of (k.view r.2).saved ≡ j
    pub live_same : (k.view r.2).live ≡ n
    pub prepared : k.Prepared r.2 st read_audit

  module _ (j : Jobs) (n : ℕ) (st : d.Stmt) where
    -- The reader stands after the records of `seen`.
    abbrev pub Reading : List (List ℕ) → List (List ℕ) → d.State → Type 0
    Reading seen rest s =
        k.Prepared s st read_audit
        × (jobs_of (k.view s).saved ≡ j)
        × (jobs_of (current (k.view s)) ≡ j)
        × ((current (k.view s)).cursor ≡ length seen)
        × ((k.view s).live ≡ n)
        × (seen ++ rest ≡ j.audit)

    next_record :
        (seen rest : List (List ℕ)) (s : d.State)
        → Reading seen rest s
        → get_elem? (current (k.view s)).audit (current (k.view s)).cursor
          ≡ get_elem? (seen ++ rest) (length seen)
    next_record seen rest s (p, a, b, c, l, e) = rw (ap (λ (x : Jobs). x.audit) b, c, e) refl

    moved :
        (seen rest : List (List ℕ)) (m : List ℕ) (s : d.State)
        → Reading seen (m ∷ rest) s
        → k.view (d.step s st).1
          ≡ write
              (k.view s)
              (record (current (k.view s)) { cursor = suc (current (k.view s)).cursor })
        → Reading (seen ++ (m ∷ [])) rest (d.step s st).1
    moved seen rest m s (p, a, b, c, l, e) v =
        let w =
          jobs_of-write (k.view s) (k.view s).staged j (suc (current (k.view s)).cursor) a b refl in
        (
          k.stepped s st read_audit p,
          ap (λ (x : View Store). jobs_of x.saved) v ∙ w.0,
          ap (λ (x : View Store). jobs_of (current x)) v ∙ w.1,
          omega (
            arith,
            ap (λ (x : View Store). (current x).cursor) v ∙ w.2,
            c,
            length-append seen (m ∷ []),
          ),
          ap (λ (x : View Store). x.live) v ∙ w.3 ∙ l,
          append_assoc seen (m ∷ []) rest ∙ e,
        )

    -- A step that gives no record leaves all but the transaction as it was.
    stop-Reported :
        (seen rest : List (List ℕ)) (s : d.State)
        → Reading seen rest s
        → (d.step s st).0 ≢ row_code
        → Reported j n st (0, seen, (d.step s st).1)
    stop-Reported seen rest s o ne =
        let u = k.read_failed s st o.0 ne in
        record {
          answers = refl;
          unread = rest;
          in_order = o.5;
          all_read = λ r. elim (r.read_answers s st o.0) [
            | inl f ↦ absurd (ne f)
            | inr f ↦ ended seen rest (sym (next_record seen rest s o) ∙ (k.read_done s st o.0 f).0)
          ];
          jobs_same = elim u.0 [ inl e ↦ ap jobs_of e ∙ o.1 | inr e ↦ ap jobs_of e ∙ o.2 ];
          live_same = u.1 ∙ o.4;
          prepared = k.stepped s st read_audit o.0;
        }

    -- The loop that reads the stream, from a reader that stands after some records, with more rounds than
    -- there are records left and these of 255 bytes at most: it answers 0, has read records in their order,
    -- and changes nothing that the jobs left. It reads all of them on a machine that fails no call.
    pub report-Reported :
        (rest : List (List ℕ)) (fuel : ℕ) (seen : List (List ℕ)) (s : d.State)
        → length rest < fuel
        → Short rest
        → Reading seen rest s
        → Reported j n st (report d fuel st seen s)
    unfolding report
    report-Reported rest zero seen s h short o = absurd (omega arith)
    report-Reported [] (suc fuel) seen s h short o =
        elim (Bool-cases ((d.step s st).0 == row_code)) [
          | inl g ↦
              let (m, e, v, took) = k.read s st o.0 (==→eq _ row_code g) in
              absurd (
                some-ne-none (
                  sym e
                  ∙ next_record seen [] s o
                  ∙ ap (λ (l : List (List ℕ)). get_elem? l (length seen)) (append-nil seen)
                  ∙ get_elem?-end seen))
          | inr g ↦ rw g (stop-Reported seen [] s o (==→ne _ row_code g))
        ]
    report-Reported (m ∷ rest) (suc fuel) seen s h short o =
        elim (Bool-cases ((d.step s st).0 == row_code)) [
          | inl g ↦
              let (m', e, v, took) = k.read s st o.0 (==→eq _ row_code g) in
              let same : m' ≡ m =
                some_same
                  (sym e ∙ next_record seen (m ∷ rest) s o ∙ get_elem?-append seen m rest) in
              rw
                (
                  g,
                  k.message_fits (d.step s st).1 st m 255
                      (subst (λ (x : List ℕ). k.Took (d.step s st).1 st x) same took) short.0,
                )
                (report-Reported rest fuel (seen ++ (m ∷ [])) (d.step s st).1 (omega arith) short.1
                  (moved seen rest m s o v))
          | inr g ↦ rw g (stop-Reported seen (m ∷ rest) s o (==→ne _ row_code g))
        ]
