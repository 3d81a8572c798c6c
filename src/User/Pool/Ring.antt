-- ===== src/User/Pool/Ring.antt =====
-- main.go: the tasks that the pool holds, in the order of the ring.
use scx_goland_core.Base.{
  ℕ, zero, suc, ◌+◌, ◌-◌, ◌%◌, ◌≤◌, ◌<◌, ◌≡◌, refl, ap, ◌∙◌, eq→==, List, [], ◌∷◌, arith, length,
  length-set, length-replicate, set, get_or-set_self, get_or-set_ne, ◌==◌, ltb, if◌then◌else◌, ◌&&◌,
  Bool-cases, inl, inr,
}
use scx_goland_core.User.Run.{Returns, Returns-map}
use scx_goland_core.User.Pool.{Task, Pool, slot, zero_task, task_pool_size, shift, empty_pool}

pub record IsValid (p : Pool) : Type 0 where
  pub size : length p.slots ≡ task_pool_size
  pub head_inside : p.head < task_pool_size
  pub count_bound : p.count < task_pool_size
  pub tail_after : p.tail ≡ (p.head + p.count) % task_pool_size

-- The `n` tasks from index `h` on, going round at the end of the ring.
abbrev pub window : List Task → ℕ → ℕ → List Task
window slots h zero = []
window slots h (suc n) = slot slots (h % task_pool_size) ∷ window slots (h + 1) n

abbrev pub contents : Pool → List Task
contents p = window p.slots p.head p.count

pub length-window : (slots : List Task) (h n : ℕ) → length (window slots h n) ≡ n
length-window slots h zero = refl
length-window slots h (suc n) = ap suc (length-window slots (h + 1) n)

pub empty_pool-IsValid : IsValid empty_pool
empty_pool-IsValid = record {
  size = length-replicate task_pool_size zero_task;
  head_inside = omega arith;
  count_bound = omega arith;
  tail_after = refl;
}

pub slot-set :
    (slots : List Task) (i j : ℕ) (t : Task)
    → i < length slots
    → slot (set slots i t) j ≡ (if i == j then t else slot slots j)
slot-set slots i j t h =
    ground (arith, get_or-set_self slots i t zero_task, get_or-set_ne slots i j t zero_task)

-- The slots from `h` on: those at the distances from `lo + 1` to `hi` hold what the slot before
-- held, and the others are as they were.
pub record Shifted (h lo hi : ℕ) (before after : List Task) : Type 0 where
  pub size_same : length after ≡ length before
  pub moved :
      (k : ℕ)
      → k < task_pool_size
      → slot after ((h + k) % task_pool_size) ≡ (
          if ltb lo k && ltb k (hi + 1)
          then slot before ((h + (k - 1)) % task_pool_size)
          else slot before ((h + k) % task_pool_size))

before_lem :
    (h hi : ℕ)
    → 0 < hi
    → ((h + hi) % task_pool_size + task_pool_size - 1) % task_pool_size
      ≡ (h + (hi - 1)) % task_pool_size
before_lem h hi pos = omega arith

Shifted-none : (h lo hi : ℕ) (slots : List Task) → lo ≡ hi → Shifted h lo hi slots slots
Shifted-none h lo hi slots e = record { size_same = refl; moved = λ k b. ground arith }

-- One round, and then the rest.
Shifted-step :
    (h lo hi : ℕ) (slots after : List Task)
    → lo < hi
    → hi < task_pool_size
    → length slots ≡ task_pool_size
    → Shifted h lo
        (hi - 1)
        (set slots ((h + hi) % task_pool_size) (slot slots ((h + (hi - 1)) % task_pool_size)))
        after
    → Shifted h lo hi slots after
Shifted-step h lo hi slots after l b s r =
    let cur = (h + hi) % task_pool_size in
    let moved = slot slots ((h + (hi - 1)) % task_pool_size) in
    record {
      size_same = r.size_same ∙ length-set slots cur moved;
      moved = λ k small. ground (
        arith,
        r.moved k small,
        slot-set slots cur ((h + k) % task_pool_size) moved,
        slot-set slots cur ((h + (k - 1)) % task_pool_size) moved,
      );
    }

-- From the distance `hi` down to `lo` the loop ends within `hi - lo` rounds.
pub shift-Shifted :
    (fuel : ℕ) (slots : List Task) (h lo hi : ℕ)
    → lo ≤ hi
    → hi ≤ lo + fuel
    → hi < task_pool_size
    → length slots ≡ task_pool_size
    → Returns
        (Shifted h lo hi slots)
        (shift fuel slots ((h + hi) % task_pool_size) ((h + lo) % task_pool_size))
unfolding shift
shift-Shifted zero slots h lo hi l f b s =
    let e : lo ≡ hi = omega arith in
    rw (eq→== ((h + hi) % task_pool_size) ((h + lo) % task_pool_size) (omega arith))
      (Shifted-none h lo hi slots e)
shift-Shifted (suc fuel) slots h lo hi l f b s =
    elim (Bool-cases (((h + hi) % task_pool_size) == ((h + lo) % task_pool_size))) [
      | inl e ↦ rw e (Shifted-none h lo hi slots (ground arith))
      | inr e ↦
          let below : lo < hi = ground arith in
          let slots' =
            set slots ((h + hi) % task_pool_size) (slot slots ((h + (hi - 1)) % task_pool_size)) in
          let rest =
            shift-Shifted fuel slots' h lo (hi - 1) (omega arith) (omega arith) (omega arith)
              (length-set slots _ _ ∙ s) in
          rw (e, before_lem h hi (omega arith))
            (Returns-map (Shifted h lo hi slots) _ rest
              (λ after r. Shifted-step h lo hi slots after below b s r))
    ]
