-- ===== src/Fifo.antt =====
-- What the program relies on of libraries/Queue-master (cppQueue, a library of its own): a queue of
-- fixed capacity made with `Queue(sizeof(A), nb_recs, FIFO, false)`, so without overwriting.
-- `records` is the abstract view by which the library's documentation is stated.
use spu_energy_efficient_sys.Common.{
  ℕ, ◌≡◌, refl, Bool, true, false, Option, List, [], ◌∷◌, ◌++◌, arith, length, head?, tail, ltb,
  ◌==◌, if◌then◌else◌,
}

pub record Fifo (A : Type 0) : Type 1 where
  pub Queue : Type 0
  pub create : ℕ → Queue
  pub push : Queue → A → Bool × Queue
  pub pop : Queue → Option A × Queue
  pub peek : Queue → Option A
  pub is_empty : Queue → Bool
  pub get_count : Queue → ℕ
  pub clean : Queue → Queue
  pub records : Queue → List A
  pub capacity : Queue → ℕ
  -- A new queue is empty and has the room that was asked for.
  pub records-create : (n : ℕ) → records (create n) ≡ []
  pub capacity-create : (n : ℕ) → capacity (create n) ≡ n
  -- `push` appends, unless the queue is full; no operation changes the capacity.
  pub records-push :
      (q : Queue) (a : A)
      → records (push q a).1
        ≡ (if ltb (length (records q)) (capacity q) then records q ++ (a ∷ []) else records q)
  pub capacity-push : (q : Queue) (a : A) → capacity (push q a).1 ≡ capacity q
  -- `pop` takes the oldest record, `peek` reads it.
  pub pop_lem : (q : Queue) → (pop q).0 ≡ head? (records q)
  pub records-pop : (q : Queue) → records (pop q).1 ≡ tail (records q)
  pub capacity-pop : (q : Queue) → capacity (pop q).1 ≡ capacity q
  pub peek_lem : (q : Queue) → peek q ≡ head? (records q)
  pub is_empty_lem : (q : Queue) → is_empty q ≡ (length (records q) == 0)
  pub get_count_lem : (q : Queue) → get_count q ≡ length (records q)
  pub records-clean : (q : Queue) → records (clean q) ≡ []
  pub capacity-clean : (q : Queue) → capacity (clean q) ≡ capacity q

-- The list model of `push`, for the instance below.
abbrev pub push_list : {A : Type 0} → List A × ℕ → A → Bool × (List A × ℕ)
push_list q a = if ltb (length q.0) q.1 then (true, (q.0 ++ (a ∷ []), q.1)) else (false, q)

pub records-push_list :
    {A : Type 0} (q : List A × ℕ) (a : A)
    → (push_list q a).1.0 ≡ (if ltb (length q.0) q.1 then q.0 ++ (a ∷ []) else q.0)
records-push_list q a = ground arith

pub capacity-push_list : {A : Type 0} (q : List A × ℕ) (a : A) → (push_list q a).1.1 ≡ q.1
capacity-push_list q a = ground arith

-- A list with its capacity meets all of this.
abbrev pub list_fifo : (A : Type 0) → Fifo A
list_fifo A = record {
  Queue = List A × ℕ;
  create = λ n. ([], n);
  push = push_list;
  pop = λ q. (head? q.0, (tail q.0, q.1));
  peek = λ q. head? q.0;
  is_empty = λ q. length q.0 == 0;
  get_count = λ q. length q.0;
  clean = λ q. ([], q.1);
  records = λ q. q.0;
  capacity = λ q. q.1;
  records-create = λ n. refl;
  capacity-create = λ n. refl;
  records-push = records-push_list;
  capacity-push = capacity-push_list;
  pop_lem = λ q. refl;
  records-pop = λ q. refl;
  capacity-pop = λ q. refl;
  peek_lem = λ q. refl;
  is_empty_lem = λ q. refl;
  get_count_lem = λ q. refl;
  records-clean = λ q. refl;
  capacity-clean = λ q. refl;
}
