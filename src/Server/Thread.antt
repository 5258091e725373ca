-- ===== src/Server/Thread.antt =====
-- The message queue of rtc::Thread, as far as turnserver_main.cc uses it for one MessageHandler.
use turnserver_v.Base.{
  ℕ, ◌+◌, ◌-◌, ◌≡◌, refl, ap, ◌∙◌, false, ◌==◌, if◌then◌else◌, Bool-cases, inl, inr, arith,
}

-- `pending q m` is how many messages of the id `m` wait. `take m` is the thread handing one of them
-- over.
pub record Thread : Type 1 where
  pub Queue : Type 0
  pub pending : Queue → ℕ → ℕ
  pub post_delayed : ℕ → ℕ → Queue → Queue
  pub clear : ℕ → Queue → Queue
  pub take : ℕ → Queue → Queue
  pub pending-post_delayed :
      (delay m : ℕ) (q : Queue) (n : ℕ)
      → pending (post_delayed delay m q) n ≡ pending q n + (if m == n then 1 else 0)
  pub pending-clear :
      (m : ℕ) (q : Queue) (n : ℕ) → pending (clear m q) n ≡ (if m == n then 0 else pending q n)
  pub pending-take :
      (m : ℕ) (q : Queue) (n : ℕ) → pending (take m q) n ≡ pending q n - (if m == n then 1 else 0)

module _ (rtc : Thread) where
  open rtc use {
    Queue, pending, post_delayed, clear, take, pending-post_delayed, pending-clear, pending-take,
  }

  -- thread_->Clear(this, m); thread_->PostDelayed(..., delay, this, m);
  abbrev pub again : ℕ → ℕ → Queue → Queue
  again delay m q = post_delayed delay m (clear m q)

  -- One message of `m` waits then, and of another as many as before.
  pub pending-again :
      (delay m n : ℕ) (q : Queue)
      → pending (again delay m q) n ≡ (if m == n then 1 else pending q n)
  pending-again delay m n q =
      pending-post_delayed delay m (clear m q) n
      ∙ ap (λ k. k + (if m == n then 1 else 0)) (pending-clear m q n)
      ∙ (elim (Bool-cases (m == n)) [
        | inl same ↦ rw same refl
        | inr other ↦ rw other (omega arith)
      ])

  pub pending-take_other :
      (m n : ℕ) (q : Queue) → (m == n) ≡ false → pending (take m q) n ≡ pending q n
  pending-take_other m n q other = pending-take m q n ∙ rw other (omega arith)
