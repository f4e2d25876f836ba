-- ===== src/Keyboard/Fifo.antt =====
-- The ring buffer of src/keyboard.c is a queue of at most 255 characters.
use microkernel_os.Prelude.{
  ℕ, zero, suc, ◌+◌, ◌-◌, ◌%◌, ◌<◌, ◌≡◌, ◌∙◌, refl, ap, true, false, List, [], ◌∷◌, ◌++◌, inl, inr,
  arith, ltb, ◌==◌, if◌then◌else◌, Bool-cases, Table, update, length,
}
use microkernel_os.Keyboard.{Keyboard, buf_put, keyboard_haskey, keyboard_trychar}

pub record IsRing (k : Keyboard) : Type 0 where
  pub head_lt : k.key_head < 256
  pub tail_lt : k.key_tail < 256

-- The characters in `n` cells from `at_cell` on.
abbrev pub cells : (n at_cell : ℕ) → Table ℕ → List ℕ
cells zero at_cell b = []
cells (suc n) at_cell b = b at_cell ∷ cells n ((at_cell + 1) % 256) b

-- How many characters wait, and which.
abbrev pub waiting : Keyboard → ℕ
waiting k = (k.key_head + 256 - k.key_tail) % 256

abbrev pub queue : Keyboard → List ℕ
queue k = cells (waiting k) k.key_tail k.key_buffer

-- A queue that takes no more than 255.
abbrev pub offer : ℕ → List ℕ → List ℕ
offer c q = if ltb (length q) 255 then q ++ (c ∷ []) else q

length-cells : (n at_cell : ℕ) (b : Table ℕ) → length (cells n at_cell b) ≡ n
length-cells zero at_cell b = refl
length-cells (suc n) at_cell b = omega (arith, length-cells n ((at_cell + 1) % 256) b)

-- A write behind the cells adds a character.
cells-append :
    (n at_cell : ℕ) (b : Table ℕ) (c : ℕ)
    → at_cell < 256
    → n < 256
    → cells (suc n) at_cell (update b ((at_cell + n) % 256) c) ≡ cells n at_cell b ++ (c ∷ [])
cells-append zero at_cell b c lt small = ground arith
cells-append (suc n) at_cell b c lt small =
    let here : ((at_cell + suc n) % 256 == at_cell) ≡ false = ground arith in
    let e : (at_cell + suc n) % 256 ≡ ((at_cell + 1) % 256 + n) % 256 = omega arith in
    rw (here, e)
      (ap (λ q. b at_cell ∷ q)
        (cells-append n ((at_cell + 1) % 256) b c (omega arith) (omega arith)))

buf_put-IsRing : (c : ℕ) (k : Keyboard) → IsRing k → IsRing (buf_put c k)
unfolding buf_put
buf_put-IsRing c k r = elim (Bool-cases ((k.key_head + 1) % 256 == k.key_tail)) [
  | inl e ↦ rw e r
  | inr e ↦ rw e (record { head_lt = omega arith; tail_lt = r.tail_lt })
]

-- `buf_put` adds the character behind those that wait, and drops it when 255 wait.
pub queue-buf_put :
    (c : ℕ) (k : Keyboard)
    → IsRing k
    → IsRing (buf_put c k) × (queue (buf_put c k) ≡ offer c (queue k))
unfolding buf_put
queue-buf_put c k r = (
  buf_put-IsRing c k r,
  elim (Bool-cases ((k.key_head + 1) % 256 == k.key_tail)) [
    | inl e ↦
        let full : ltb (length (queue k)) 255 ≡ false =
          rw (length-cells (waiting k) k.key_tail k.key_buffer)
            (ground (arith, e, r.head_lt, r.tail_lt)) in
        rw (e, full)
    | inr e ↦
        let room : ltb (length (queue k)) 255 ≡ true =
          rw (length-cells (waiting k) k.key_tail k.key_buffer)
            (ground (arith, e, r.head_lt, r.tail_lt)) in
        let more : ((k.key_head + 1) % 256 + 256 - k.key_tail) % 256 ≡ suc (waiting k) =
          ground (arith, e, r.head_lt, r.tail_lt) in
        let last : (k.key_tail + waiting k) % 256 ≡ k.key_head =
          omega (arith, r.head_lt, r.tail_lt) in
        let grown : cells (suc (waiting k)) k.key_tail (update k.key_buffer k.key_head c)
            ≡ queue k ++ (c ∷ []) =
          rw last at (cells-append (waiting k) k.key_tail k.key_buffer c r.tail_lt (omega arith)) in
        rw (e, room, more) grown
  ],
)

-- What a queue gives to a reader: its first character, or 0 where none waits.
abbrev pub poll : List ℕ → ℕ × List ℕ
poll [] = (0, [])
poll (c ∷ cs) = (c, cs)

-- `keyboard_trychar` takes the character that has waited longest, and answers 0 where none waits.
pub queue-keyboard_trychar :
    (k : Keyboard)
    → IsRing k
    → IsRing (keyboard_trychar k).1
      × (((keyboard_trychar k).0, queue (keyboard_trychar k).1) ≡ poll (queue k))
unfolding keyboard_trychar keyboard_haskey
queue-keyboard_trychar k r = elim (Bool-cases (k.key_head == k.key_tail)) [
  | inl e ↦
      let none_wait : waiting k ≡ 0 = ground (arith, e, r.head_lt, r.tail_lt) in
      rw (e, none_wait) (r, refl)
  | inr e ↦
      let rest : ℕ = (k.key_head + 256 - (k.key_tail + 1) % 256) % 256 in
      let some_wait : waiting k ≡ suc rest = ground (arith, e, r.head_lt, r.tail_lt) in
      rw (e, some_wait) (record { head_lt = r.head_lt; tail_lt = omega arith }, refl)
]

-- What happens at the buffer: a character comes in, or a program asks for one.
pub data Event : Type 0 where
  put : ℕ → Event
  try : Event

-- The answers to a run of events, from the buffer and from a queue.
unfoldable pub answers : List Event → Keyboard → List ℕ
answers [] k = []
answers (put c ∷ es) k = answers es (buf_put c k)
answers (try ∷ es) k = (keyboard_trychar k).0 ∷ answers es (keyboard_trychar k).1

unfoldable pub queue_answers : List Event → List ℕ → List ℕ
queue_answers [] q = []
queue_answers (put c ∷ es) q = queue_answers es (offer c q)
queue_answers (try ∷ es) q = (poll q).0 ∷ queue_answers es (poll q).1

-- Whatever comes in and is asked for, in any order, programs get the answers of a first-in first-out queue of
-- at most 255 characters.
pub answers-queue_answers :
    (es : List Event) (k : Keyboard) → IsRing k → answers es k ≡ queue_answers es (queue k)
unfolding answers queue_answers
answers-queue_answers [] k r = refl
answers-queue_answers (put c ∷ es) k r =
    let one = queue-buf_put c k r in
    answers-queue_answers es (buf_put c k) one.0 ∙ ap (queue_answers es) one.1
answers-queue_answers (try ∷ es) k r =
    let one = queue-keyboard_trychar k r in
    let first : (keyboard_trychar k).0 ≡ (poll (queue k)).0 = ap (λ (x : ℕ × List ℕ). x.0) one.1 in
    let rest : queue (keyboard_trychar k).1 ≡ (poll (queue k)).1 =
      ap (λ (x : ℕ × List ℕ). x.1) one.1 in
    rw (first, answers-queue_answers es (keyboard_trychar k).1 one.0, rest)
