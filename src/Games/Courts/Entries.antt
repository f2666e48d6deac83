-- ===== src/Games/Courts/Entries.antt =====
-- The cancellations of RemoveCourtsAndCancelBookings in cmd/management/service/game_service.go: how
-- many bookings of each label are settled, and what the calls were.
use squash_bot.Prelude.{
  ℕ, ◌+◌, min, ◌≡◌, ◌⊎◌, inl, inr, refl, sym, ap, ◌∙◌, Option, none, some, Bool, true, false, List,
  [], ◌∷◌, ◌++◌, map, append-nil, if◌then◌else◌, arith, Bool-cases, Option-cases, All, All-append,
}
use squash_bot.Prelude.Text.{Text, text_eq}
use squash_bot.Prelude.Text.Equality.{text_eq→≡}
use squash_bot.Prelude.Text.Bags.{hit, count, take_out, count-append, take_out-none, take_out-some}
use squash_bot.Cancellation.{CourtBooking}
use squash_bot.Cancellation.Cancel.{CredReply, next_ok, rest_ok}
use squash_bot.Cancellation.Cancel.Answers.{OwnLogin}
use squash_bot.Games.Courts.Answers.{
  login_of-OwnLogin, answers_to, left_after, answers_to-append, left_after-append,
}
use squash_bot.Games.Courts.{
  answered, attempt, Reason, Call, Removal, login_of, cancel_entry, cancel_entries,
}

-- The labels of the bookings.
abbrev pub labels : List CourtBooking → List Text
labels es = map (λ e. e.court_label) es

-- The courts of a label that are done with: cancelled, or reported by an error.
abbrev pub settled_count : Text → Removal → ℕ
settled_count x p = count x p.canceled + count x (map (λ e. e.0) p.errors)

count-map-append :
    (x : Text) (xs ys : List (Text × Reason))
    → count x (map (λ e. e.0) (xs ++ ys))
      ≡ count x (map (λ e. e.0) xs) + count x (map (λ e. e.0) ys)
count-map-append x [] ys = omega arith
count-map-append x (y ∷ xs) ys = omega (arith, count-map-append x xs ys)

answered-settled :
    (x : Text) (e : CourtBooking) (login : Text) (ok : Bool) (p : Removal)
    → settled_count x (answered e login ok p) ≡ settled_count x p + hit x e.court_label
unfolding answered
answered-settled x e login true p = omega (arith, count-append x p.canceled (e.court_label ∷ []))
answered-settled x e login false p =
    omega (arith, count-map-append x p.errors ((e.court_label, Reason.cancel_match) ∷ []))

-- An entry within its quota is settled once.
attempt-settled :
    (x : Text) (e : CourtBooking) (r : Reason ⊎ Text) (p : Removal)
    → settled_count x (attempt e r p) ≡ settled_count x p + hit x e.court_label
unfolding attempt
attempt-settled x e (inl reason) p =
    omega (arith, count-map-append x p.errors ((e.court_label, reason) ∷ []))
attempt-settled x e (inr login) p =
    answered-settled x e login (next_ok p.replies) (record p { replies = rest_ok p.replies })

answered-quota :
    (e : CourtBooking) (login : Text) (ok : Bool) (p : Removal)
    → (answered e login ok p).quota ≡ p.quota
unfolding answered
answered-quota e login true p = refl
answered-quota e login false p = refl

attempt-quota :
    (e : CourtBooking) (r : Reason ⊎ Text) (p : Removal) → (attempt e r p).quota ≡ p.quota
unfolding attempt
attempt-quota e (inl reason) p = refl
attempt-quota e (inr login) p =
    answered-quota e login (next_ok p.replies) (record p { replies = rest_ok p.replies })

cancel_entries-none :
    (creds : Option (ℕ → CredReply)) (e : CourtBooking) (es : List CourtBooking) (p : Removal)
    → take_out e.court_label p.quota ≡ none
    → cancel_entries creds (e ∷ es) p ≡ cancel_entries creds es p
unfolding cancel_entries
cancel_entries-none creds e es p h = rw (h, cancel_entries) refl

cancel_entries-some :
    (creds : Option (ℕ → CredReply)) (e : CourtBooking) (es : List CourtBooking) (p : Removal)
    (left : List Text)
    → take_out e.court_label p.quota ≡ some left
    → cancel_entries creds (e ∷ es) p
      ≡ cancel_entries creds es (cancel_entry creds e (record p { quota = left }))
unfolding cancel_entries
cancel_entries-some creds e es p left h = rw (h, cancel_entries) refl

-- Of each label, as many bookings are settled as the quota and the entries allow.
pub cancel_entries-settled :
    (x : Text) (creds : Option (ℕ → CredReply)) (es : List CourtBooking) (p : Removal)
    → settled_count x (cancel_entries creds es p)
      ≡ settled_count x p + min (count x p.quota) (count x (labels es))
unfolding cancel_entries
cancel_entries-settled x creds [] p = omega arith
cancel_entries-settled x creds (e ∷ es) p = elim (Option-cases (take_out e.court_label p.quota)) [
  | inl h ↦
      let rest = cancel_entries-settled x creds es p in
      rw (cancel_entries-none creds e es p h) (elim (Bool-cases (text_eq x e.court_label)) [
        | inl q ↦
            let zero : count x p.quota ≡ 0 =
              rw (text_eq→≡ x e.court_label q) (take_out-none e.court_label p.quota h) in
            omega (arith, rest, zero)
        | inr q ↦ ground (arith, rest)
      ])
  | inr (left, h) ↦
      let q : Removal = cancel_entry creds e (record p { quota = left }) in
      let rest = cancel_entries-settled x creds es q in
      let k = take_out-some x e.court_label p.quota left h in
      let kept = ap (count x) (attempt-quota e (login_of creds e) (record p { quota = left })) in
      let one = attempt-settled x e (login_of creds e) (record p { quota = left }) in
      rw (cancel_entries-some creds e es p left h) (omega (arith, rest, k, kept, one))
]

-- The calls that were answered without an error.
abbrev pub confirmed : List Call → List CourtBooking
confirmed [] = []
confirmed (c ∷ cs) = if c.ok then c.entry ∷ confirmed cs else confirmed cs

confirmed-append :
    (cs : List Call) (c : Call)
    → confirmed (cs ++ c ∷ []) ≡ confirmed cs ++ (if c.ok then c.entry ∷ [] else [])
confirmed-append [] c = refl
confirmed-append (d ∷ cs) c = elim (Bool-cases d.ok) [
  | inl e ↦ rw e (
      ap {A = List CourtBooking} {B = List CourtBooking} (λ l. d.entry ∷ l) (confirmed-append cs c))
  | inr e ↦ rw e (confirmed-append cs c)
]

-- The variables agree with the calls, and these with the answers `replies`: the confirmed calls are
-- reported and marked, and each call was made with the login of the booking's credential.
pub record IsHonest (creds : Option (ℕ → CredReply)) (replies : List Bool) (p : Removal)
    : Type 0 where
  pub reported : p.canceled ≡ labels (confirmed p.calls)
  pub marked : p.marked ≡ map (λ e. e.match_id) (confirmed p.calls)
  pub answers : map (λ c. c.ok) p.calls ≡ answers_to p.calls replies
  pub left : p.replies ≡ left_after p.calls replies
  pub own_login : All (λ c. OwnLogin creds c.entry c.login) p.calls

map-append {ℓ κ} :
    {A : Type ℓ} {B : Type κ} (f : A → B) (xs ys : List A) → map f (xs ++ ys) ≡ map f xs ++ map f ys
map-append f [] ys = refl
map-append f (x ∷ xs) ys = ap (λ l. f x ∷ l) (map-append f xs ys)

answered-answers :
    (creds : Option (ℕ → CredReply)) (replies : List Bool) (c : Call) (p : Removal)
    → next_ok p.replies ≡ c.ok
    → IsHonest creds replies p
    → map (λ c. c.ok) (p.calls ++ c ∷ []) ≡ answers_to (p.calls ++ c ∷ []) replies
answered-answers creds replies c p now i =
    map-append (λ c. c.ok) p.calls (c ∷ [])
    ∙ (ap (λ bs. bs ++ c.ok ∷ []) i.answers
        ∙ (ap (λ b. answers_to p.calls replies ++ b ∷ []) (sym now ∙ ap next_ok i.left)
            ∙ sym (answers_to-append p.calls c replies)))

-- A call with the next answer keeps the variables in agreement.
answered-IsHonest :
    (creds : Option (ℕ → CredReply)) (replies : List Bool) (e : CourtBooking) (login : Text)
    (ok : Bool) (p : Removal)
    → login_of creds e ≡ inr login
    → next_ok p.replies ≡ ok
    → IsHonest creds replies p
    → IsHonest creds replies (answered e login ok (record p { replies = rest_ok p.replies }))
unfolding answered
answered-IsHonest creds replies e login true p h now i =
    let c : Call = record { entry = e; login = login; ok = true } in
    let done = confirmed-append p.calls c in
    record {
      reported =
          ap (λ l. l ++ e.court_label ∷ []) i.reported
          ∙ (sym (map-append (λ b. b.court_label) (confirmed p.calls) (e ∷ []))
              ∙ ap (map (λ b. b.court_label)) (sym done));
      marked =
          ap (λ l. l ++ e.match_id ∷ []) i.marked
          ∙ (sym (map-append (λ b. b.match_id) (confirmed p.calls) (e ∷ []))
              ∙ ap (map (λ b. b.match_id)) (sym done));
      answers = answered-answers creds replies c p now i;
      left = ap rest_ok i.left ∙ sym (left_after-append p.calls c replies);
      own_login = All-append _ p.calls (c ∷ []) i.own_login (login_of-OwnLogin creds e login h, tt);
    }
answered-IsHonest creds replies e login false p h now i =
    let c : Call = record { entry = e; login = login; ok = false } in
    let done = confirmed-append p.calls c ∙ append-nil (confirmed p.calls) in
    record {
      reported = i.reported ∙ ap labels (sym done);
      marked = i.marked ∙ ap (map (λ b. b.match_id)) (sym done);
      answers = answered-answers creds replies c p now i;
      left = ap rest_ok i.left ∙ sym (left_after-append p.calls c replies);
      own_login = All-append _ p.calls (c ∷ []) i.own_login (login_of-OwnLogin creds e login h, tt);
    }

attempt-IsHonest :
    (creds : Option (ℕ → CredReply)) (replies : List Bool) (e : CourtBooking) (r : Reason ⊎ Text)
    (p : Removal)
    → login_of creds e ≡ r
    → IsHonest creds replies p
    → IsHonest creds replies (attempt e r p)
unfolding attempt
attempt-IsHonest creds replies e (inl reason) p h i = record {
  reported = i.reported;
  marked = i.marked;
  answers = i.answers;
  left = i.left;
  own_login = i.own_login;
}
attempt-IsHonest creds replies e (inr login) p h i =
    answered-IsHonest creds replies e login (next_ok p.replies) p h refl i

pub cancel_entries-IsHonest :
    (creds : Option (ℕ → CredReply)) (replies : List Bool) (es : List CourtBooking) (p : Removal)
    → IsHonest creds replies p
    → IsHonest creds replies (cancel_entries creds es p)
unfolding cancel_entries
cancel_entries-IsHonest creds replies [] p i = i
cancel_entries-IsHonest creds replies (e ∷ es) p i =
    elim (Option-cases (take_out e.court_label p.quota)) [
      | inl h ↦
          rw (cancel_entries-none creds e es p h) (cancel_entries-IsHonest creds replies es p i)
      | inr (left, h) ↦
          let q : Removal = record p { quota = left } in
          rw (cancel_entries-some creds e es p left h) (
            cancel_entries-IsHonest creds replies es (cancel_entry creds e q) (
              attempt-IsHonest creds replies e (login_of creds e) q refl (record {
                reported = i.reported;
                marked = i.marked;
                answers = i.answers;
                left = i.left;
                own_login = i.own_login;
              })))
    ]
