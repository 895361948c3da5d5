-- ===== src/Quiche/Benchmark/Writes.antt =====
-- What writing does to the responses.
use nesquic.Prelude.{
  ℕ, List, Option, All, [], length, ◌++◌, ◌≡◌, Bool-cases, drop, some, ◌∷◌, none, suc, ◌==◌, inl,
  refl, zero, ==_iff, inr, All-map, ◌∙◌, sym, Returns, ap, ok, le→leb, All-snoc, append_assoc,
  Option-cases, Returns-bind, take, Returns-map, take-append-drop,
}
use nesquic.Quiche.Connection.{Connection, IsConnection, Sent}
use nesquic.Quiche.Benchmark.{
  set, remove_all, Writing, after_send, advance, process_writes, write_response, write_responses,
  write_request, finish, Benchmark, write_first, Request,
}

abbrev pub rest : Option (List ℕ) → List ℕ
rest none = []
rest (some res) = res

drop-nil : (n : ℕ) (xs : List ℕ) → xs ≡ [] → drop n xs ≡ []
drop-nil zero xs h = h
drop-nil (suc n) [] h = refl
drop-nil (suc n) (x ∷ xs) h = cc

length-nil : (xs : List ℕ) → length xs ≡ 0 → xs ≡ []
length-nil [] h = refl
length-nil (x ∷ xs) h = cc

-- Entering the rest of a response that is empty for `j` if it was before.
rest-set :
    (i j : ℕ) (entry : Option (List ℕ)) (pending : ℕ → Option (List ℕ))
    → (rest (pending i) ≡ [] → rest entry ≡ [])
    → rest (pending j) ≡ []
    → rest (set i entry pending j) ≡ []
unfolding set
rest-set i j entry pending h empty = elim (Bool-cases (j == i)) [
  | inl same ↦ rw same (h (rw ((==_iff j i).0 same) at empty))
  | inr differs ↦ rw differs empty
]

-- Removing complete responses takes nothing away.
remove_all-rest :
    (streams : List ℕ) (pending : ℕ → Option (List ℕ)) (j : ℕ)
    → All (λ (i : ℕ). rest (pending i) ≡ []) streams
    → rest (remove_all streams pending j) ≡ rest (pending j)
unfolding remove_all set
remove_all-rest [] pending j h = refl
remove_all-rest (i ∷ streams) pending j h =
    remove_all-rest streams (set i none pending) j
      (All-map _ _ streams (λ k. rest-set i k none pending (λ _. refl)) h.1)
    ∙ elim (Bool-cases (j == i)) [
      | inl same ↦ rw same (sym (rw (sym ((==_iff j i).0 same)) at h.0))
      | inr differs ↦ rw differs refl
    ]

module _ {c : Connection} (laws : IsConnection c) where
  open c use {World, stream_send}
  open laws use {unread, outbox, send_law}

  -- What stream `j` was sent and what is still to be sent on it.
  abbrev pub owed : (ℕ → Option (List ℕ)) → World → ℕ → List ℕ
  owed pending w j = outbox w j ++ rest (pending j)

  -- What a step of the writing keeps: every stream gets, in all, what it was to get; what was
  -- complete stays so, and the streams that are listed as complete are.
  record Keeps (before after : Writing c) : Type 0 where
    pub same : (j : ℕ) → owed after.0 after.2 j ≡ owed before.0 before.2 j
    pub complete :
        All (λ (i : ℕ). rest (before.0 i) ≡ []) before.1
        → All (λ (i : ℕ). rest (after.0 i) ≡ []) after.1

  after_send-Keeps :
      (i : ℕ) (res : List ℕ) (pending : ℕ → Option (List ℕ)) (completed : List ℕ) (w : World)
      (result : Option ℕ) (w' : World)
      → pending i ≡ some res
      → Sent unread outbox i res w result w'
      → Returns (after_send c i res pending completed (result, w')) (Keeps (pending, completed, w))
  unfolding after_send
  after_send-Keeps i res pending completed w none w' here sent = record {
    same = λ j. ap (λ (out : List ℕ). out ++ rest (pending j)) (sent j);
    complete = λ h. h;
  }
  after_send-Keeps i res pending completed w (some n) w' here (fits, mine, others) =
      let taken : advance n res ≡ ok (drop n res) = unfold advance in rw (le→leb n _ fits) refl in
      rw taken (record {
        same = λ j. sent_part j;
        complete = λ h. elim (Bool-cases (length (drop n res) == 0)) [
          | inl whole ↦ rw whole (
              All-snoc completed (λ (k : ℕ). rest (set i (some (drop n res)) pending k) ≡ [])
                (emptied (length-nil _ ((==_iff _ _).0 whole))) (still completed h))
          | inr part ↦ rw part (still completed h)
        ];
      })
    where
      still :
          (is : List ℕ)
          → All (λ (k : ℕ). rest (pending k) ≡ []) is
          → All (λ (k : ℕ). rest (set i (some (drop n res)) pending k) ≡ []) is
      still is =
          All-map _ _ is
            (λ k. rest-set i k (some (drop n res)) pending (λ e. drop-nil n res (rw here at e)))

      sent_part : (j : ℕ) → owed (set i (some (drop n res)) pending) w' j ≡ owed pending w j
      sent_part j = elim (Bool-cases (j == i)) [
        | inl same ↦
            let at : j ≡ i = (==_iff j i).0 same in
            unfold set in
            rw same (
              rw at (
                rw (mine, here)
                  (append_assoc (outbox w i) (take n res) (drop n res)
                    ∙ ap (λ (xs : List ℕ). outbox w i ++ xs) (take-append-drop n res))))
        | inr differs ↦ unfold set in rw differs (rw (others j differs) refl)
      ]

      emptied : drop n res ≡ [] → rest (set i (some (drop n res)) pending i) ≡ []
      emptied e = unfold set in rw ((==_iff i i).1 refl) e

  write_response-Keeps : (i : ℕ) (s : Writing c) → Returns (write_response c i s) (Keeps s)
  unfolding write_response
  write_response-Keeps i (pending, completed, w) = elim (Option-cases (pending i)) [
    | inl missing ↦ rw missing (record { same = λ j. refl; complete = λ h. h })
    | inr (res, here) ↦ rw here (
        after_send-Keeps i res pending completed w (stream_send i res w).0 (stream_send i res w).1
          here (send_law i res w))
  ]

  write_responses-Keeps : (is : List ℕ) (s : Writing c) → Returns (write_responses c is s) (Keeps s)
  unfolding write_responses
  write_responses-Keeps [] s = record { same = λ j. refl; complete = λ h. h }
  write_responses-Keeps (i ∷ is) s =
      Returns-bind (Keeps s) (Keeps s) (write_response c i s) (write_responses c is)
        (write_response-Keeps i s)
        (λ s' k.
          Returns-map (Keeps s') (Keeps s) (write_responses c is s') (write_responses-Keeps is s')
            (λ s'' k'. record {
              same = λ j. k'.same j ∙ k.same j;
              complete = λ h. k'.complete (k.complete h);
            }))

  write_request-idle : (b : Benchmark) (w : World) → b.reqs ≡ [] → write_request c b w ≡ ok (b, w)
  unfolding write_request write_first
  write_request-idle b w idle = ap (λ (reqs : List (ℕ × Request × ℕ)). write_first c reqs b w) idle

  -- With no request to send, and whatever the order in which the responses are iterated,
  -- `process_writes` returns, and for each stream what was sent followed by what is still pending is
  -- what it was before: nothing of a response is lost, repeated or reordered, and a response leaves
  -- the map only when it was sent whole.
  pub process_writes-owed :
      (order : List ℕ) (b : Benchmark) (w : World)
      → b.reqs ≡ []
      → Returns
          (process_writes c order b w)
          (λ p. (j : ℕ) → owed p.0.pending_res p.1 j ≡ owed b.pending_res w j)
  unfolding process_writes finish
  process_writes-owed order b w idle = rw (write_request-idle b w idle) (
      Returns-bind (Keeps (b.pending_res, [], w)) _ (write_responses c order (b.pending_res, [], w))
        (λ s. ok (finish c b s)) (write_responses-Keeps order (b.pending_res, [], w))
        (λ s k j.
          ap (λ (xs : List ℕ). outbox s.2 j ++ xs) (remove_all-rest s.1 s.0 j (k.complete tt))
          ∙ k.same j))
