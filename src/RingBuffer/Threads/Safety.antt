-- ===== src/RingBuffer/Threads/Safety.antt =====
-- What the calls of any number of threads on a new ring get, whatever the order of their actions.
use map_reduce_rpc.Prelude.{
  ℕ, zero, suc, ◌*◌, ◌^◌, ◌≤◌, ◌<◌, ◌≡◌, ◌≢◌, Bool, true, false, refl, sym, ap, ◌∙◌, arith, Option,
  none, some, List, [], ◌∷◌, length, get_elem?, get_elem?-some,
}
use map_reduce_rpc.RingBuffer.{PushState, len, PopState}
use map_reduce_rpc.RingBuffer.Calls.{Call, put, get, new_ring_buffer-Holds}
use map_reduce_rpc.RingBuffer.Threads.{
  pushing, popping, System, run_schedule, turn, begin, started, tail_movers, head_movers, pushed,
}
use map_reduce_rpc.RingBuffer.Threads.Moves.{IsShared, pushed-run_schedule}
use map_reduce_rpc.RingBuffer.Threads.History.{run_schedule-Reached, start-IsShared}

get_elem?-bound {ℓ} :
    {A : Type ℓ} (xs : List A) (i : ℕ) {a : A} → get_elem? xs i ≡ some a → i < length xs
get_elem?-bound [] i e = ground arith
get_elem?-bound (x ∷ xs) zero e = omega arith
get_elem?-bound (x ∷ xs) (suc i) e = omega (arith, get_elem?-bound xs i e)

-- The movers of a counter, each with the one position it has moved the counter from.
pub record Movers (count : ℕ) (movers : List ℕ) (mover : ℕ → ℕ) : Type 0 where
  pub counted : count ≡ length movers
  pub at : (p i : ℕ) → get_elem? movers p ≡ some i → mover p ≡ i
  pub one_each : (p q : ℕ) → p < count → q < count → mover p ≡ mover q → p ≡ q

module _ {count : ℕ} {movers : List ℕ} {mover : ℕ → ℕ} (m : Movers count movers mover) where
  mover_at : (p : ℕ) → p < count → get_elem? movers p ≡ some (mover p)
  mover_at p lt =
      let (a, found) = get_elem?-some movers p (omega (arith, m.counted)) in
      found ∙ ap some (sym (m.at p a found))

  mover_once : (p q i : ℕ) → p < count → mover p ≡ i → get_elem? movers q ≡ some i → q ≡ p
  mover_once p q i lt e found =
      m.one_each q p (omega (arith, m.counted, get_elem?-bound movers q found)) lt
        (m.at q i found ∙ sym e)

module _ {A : Type 0} where
  -- An action moves the tail at most once.
  pub length-tail_movers :
      (schedule : List ℕ) (s : System A) → length (tail_movers schedule s) ≤ length schedule
  unfolding tail_movers
  length-tail_movers [] s = omega arith
  length-tail_movers (i ∷ schedule) s = ground (arith, length-tail_movers schedule (turn i s))

  call_of_pushed :
      (call : Option (Call A)) (v : A) → pushed (begin call) ≡ some v → call ≡ some (put v)
  call_of_pushed none v e = ground arith
  call_of_pushed (some (put x)) v e = ground arith
  call_of_pushed (some get) v e = ground arith

  -- What a schedule has made of a new ring.
  pub record Ran (capacity : ℕ) (schedule : List ℕ) (s : System A) : Type 0 where
    pub k : ℕ
    pub room_enough : capacity ≤ 2 ^ k
    pub room_bound : 2 ^ k < 2 * capacity
    pub owner : ℕ → ℕ
    pub taker : ℕ → ℕ
    pub shared :
        IsShared k (run_schedule schedule s).ring (run_schedule schedule s).threads owner taker
    pub tail : Movers (run_schedule schedule s).ring.tail (tail_movers schedule s) owner
    pub head : Movers (run_schedule schedule s).ring.head (head_movers schedule s) taker

  module _ (zero_value : A) (capacity : ℕ) (two : 2 ≤ capacity) (small : capacity ≤ 2 ^ 62)
      (calls : List (Call A)) (schedule : List ℕ) (short : length schedule < 2 ^ 62) where
    pub started-Ran : Ran capacity schedule (started zero_value capacity calls)
    unfolding started
    started-Ran =
        let (k, holds, above, below) = new_ring_buffer-Holds zero_value capacity two small in
        let r =
          run_schedule-Reached schedule (started zero_value capacity calls) k (λ p. 0) (λ p. 0)
            (omega (arith, holds.tail))
            (start-IsShared (started zero_value capacity calls).ring k calls (λ p. 0) holds) in
        record {
          k = k;
          room_enough = above;
          room_bound = below;
          owner = r.owner';
          taker = r.taker';
          shared = r.shared;
          tail = record {
            counted = omega (arith, r.tail_moves.counted, holds.tail);
            at = λ p i found. ap r.owner' (omega (arith, holds.tail)) ∙ r.tail_moves.new p i found;
            one_each = r.shared.positions.single;
          };
          head = record {
            counted = omega (arith, r.head_moves.counted, holds.head);
            at = λ p i found. ap r.taker' (omega (arith, holds.head)) ∙ r.head_moves.new p i found;
            one_each = r.shared.positions.single_take;
          };
        }

    -- On a new ring with `2 ≤ capacity ≤ 2 ^ 62`, after fewer than 2 ^ 62 actions of any number of
    -- threads in any order: a call of `Pop` that has returned a value is one of the calls that
    -- moved the head, once, and the call that moved the tail at the same place of the order, once,
    -- is a call of `Push` of this value. So no value is popped that was not pushed, and none twice.
    pub popped_once :
        (i : ℕ) (v : A)
        → (run_schedule schedule (started zero_value capacity calls)).threads i
          ≡ popping (PopState.returned (some v))
        → (p : ℕ) × (j : ℕ) × (get_elem?
              (head_movers schedule (started zero_value capacity calls))
              p
            ≡ some i)
          × (get_elem? (tail_movers schedule (started zero_value capacity calls)) p ≡ some j)
          × (get_elem? calls j ≡ some (put v))
          × ((q : ℕ)
              → get_elem? (head_movers schedule (started zero_value capacity calls)) q ≡ some i
              → q ≡ p)
          × ((q : ℕ)
              → get_elem? (tail_movers schedule (started zero_value capacity calls)) q ≡ some j
              → q ≡ p)
    unfolding started
    popped_once i v at =
        let r = started-Ran in
        let P = r.shared.positions in
        let s' = run_schedule schedule (started zero_value capacity calls) in
        let (p, lt, mine) = rw at at (P.knows i) in
        let (passed, value) = rw (mine, at) at (P.taken p lt) in
        (
          p,
          r.owner p,
          mover_at r.head p lt ∙ ap some mine,
          mover_at r.tail p (omega (arith, P.order)),
          call_of_pushed (get_elem? calls (r.owner p)) v (
              sym (pushed-run_schedule schedule (started zero_value capacity calls) (r.owner p))
              ∙ value),
          λ q found. mover_once r.head p q i lt mine found,
          λ q found. mover_once r.tail p q (r.owner p) (omega (arith, P.order)) refl found,
        )

    -- On a new ring with `2 ≤ capacity ≤ 2 ^ 62`, after fewer than 2 ^ 62 actions of any number of
    -- threads in any order after which a call of `Push` has returned: it has moved the tail once if it
    -- has returned true, and has not moved it if it has returned false. The ring then holds no more
    -- than its capacity, a power of two that is at least the one asked for and less than twice that.
    pub push_answers :
        (i : ℕ) (x : A) (b : Bool)
        → (run_schedule schedule (started zero_value capacity calls)).threads i
          ≡ pushing x (PushState.returned b)
        → (get_elem? calls i ≡ some (put x))
          × (b ≡ true
              → (p : ℕ) × (get_elem? (tail_movers schedule (started zero_value capacity calls)) p
                  ≡ some i)
                × ((q : ℕ)
                    → get_elem? (tail_movers schedule (started zero_value capacity calls)) q
                      ≡ some i
                    → q ≡ p))
          × (b ≡ false
              → (p : ℕ)
              → get_elem? (tail_movers schedule (started zero_value capacity calls)) p ≢ some i)
          × (len (run_schedule schedule (started zero_value capacity calls)).ring
              ≤ (run_schedule schedule (started zero_value capacity calls)).ring.capacity)
          × (k : ℕ) × ((run_schedule schedule (started zero_value capacity calls)).ring.capacity
              ≡ 2 ^ k)
          × (capacity ≤ 2 ^ k)
          × (2 ^ k < 2 * capacity)
    unfolding started len
    push_answers i x b at =
        let r = started-Ran in
        let P = r.shared.positions in
        let s' = run_schedule schedule (started zero_value capacity calls) in
        (
          call_of_pushed (get_elem? calls i) x (
              sym (pushed-run_schedule schedule (started zero_value capacity calls) i)
              ∙ ap pushed at),
          λ yes.
              let (p, lt, mine) = rw (at, yes) at (P.knows i) in
              (
                p,
                mover_at r.tail p lt ∙ ap some mine,
                λ q found. mover_once r.tail p q i lt mine found,
              ),
          λ no p found.
              let mine = r.tail.at p i found in
              let lt =
                get_elem?-bound (tail_movers schedule (started zero_value capacity calls)) p
                  found in
              rw (mine, at, no) at (P.owned p (omega (arith, r.tail.counted))),
          ground (arith, P.room, r.shared.capacity),
          r.k,
          r.shared.capacity,
          r.room_enough,
          r.room_bound,
        )
