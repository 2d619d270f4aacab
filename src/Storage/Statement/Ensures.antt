-- ===== src/Storage/Statement/Ensures.antt =====
-- What a call that returns without an error has done, by the shape of the code that makes it.
use brawl_stars_guide.Base.{
  ℕ, ◌≡◌, refl, ap, sym, ◌∙◌, Error, Result, ok, err, Bool-cases, inl, inr,
}
use brawl_stars_guide.Storage.Schema.{Db}
use brawl_stars_guide.Storage.Statement.{
  Env, World, M, Statement, branch, handle, settle, exec, ◌>>=◌,
}

-- What holds of the value of a call that succeeds, and of the world after it.
abbrev pub Ensures : {A : Type 0} → (A → World → Type 0) → M A → Type 0
Ensures {A} Q m = (w : World) (a : A) → (m w).0 ≡ ok a → Q a (m w).1

branch-Ensures :
    {A B : Type 0} (R : A → World → Type 0) (Q : B → World → Type 0) (h : Error → M B) (k : A → M B)
    (r : Result A × World)
    → ((a : A) → r.0 ≡ ok a → R a r.1)
    → ((x : Error) → Ensures Q (h x))
    → ((a : A) (v : World) → R a v → (b : B) → (k a v).0 ≡ ok b → Q b (k a v).1)
    → (b : B) → (branch h k r).0 ≡ ok b
    → Q b (branch h k r).1
branch-Ensures R Q h k (ok a, v) rm qh qk b e = qk a v (rm a refl) b e
branch-Ensures R Q h k (err x, v) rm qh qk b e = qh x v b e

pub handle-Ensures :
    {A B : Type 0} (R : A → World → Type 0) (Q : B → World → Type 0) (m : M A) (h : Error → M B)
    (k : A → M B)
    → Ensures R m
    → ((x : Error) → Ensures Q (h x))
    → ((a : A) (v : World) → R a v → (b : B) → (k a v).0 ≡ ok b → Q b (k a v).1)
    → Ensures Q (handle m h k)
unfolding handle
handle-Ensures R Q m h k rm qh qk w b e = branch-Ensures R Q h k (m w) (λ a q. rm w a q) qh qk b e

pub bind-Ensures :
    {A B : Type 0} (R : A → World → Type 0) (Q : B → World → Type 0) (m : M A) (k : A → M B)
    → Ensures R m
    → ((a : A) (v : World) → R a v → (b : B) → (k a v).0 ≡ ok b → Q b (k a v).1)
    → Ensures Q (m >>= k)
bind-Ensures R Q m k rm qk = handle-Ensures R Q m _ k rm (λ x w b e. absurd (cc)) qk

pub exec-Ensures :
    {A : Type 0} (e : Env) (s : Statement A) (Q : A → World → Type 0)
    → ((now : ℕ) (d : Db) (w : World) (a : A) → (s now d).0 ≡ ok a → w.db ≡ (s now d).1 → Q a w)
    → Ensures Q (exec e s)
unfolding exec
exec-Ensures {A} e s Q h w a eq = elim (Bool-cases (e.fails w.step)) [
  | inl down ↦ absurd (cc)
  | inr up ↦
      let before = e.others w.step w.db in
      rw (up, exec) (settled (s (e.db_now w.step) before) refl (rw (up, exec) at eq))
]
  where
    settled :
        (r : Result A × Db)
        → s (e.db_now w.step) (e.others w.step w.db) ≡ r
        → (settle w (e.others w.step w.db) r).0 ≡ ok a
        → Q a (settle w (e.others w.step w.db) r).1
    settled (ok b, d) q t =
        h (e.db_now w.step) (e.others w.step w.db) _ a (ap (λ x. x.0) q ∙ t) (ap (λ x. x.1) (sym q))
    settled (err x, d) q t = absurd (cc)

-- A call from one world, where more is known than in general.
pub bind-Ensures_at :
    {A B : Type 0} (R : A → World → Type 0) (Q : B → World → Type 0) (m : M A) (k : A → M B)
    (w : World)
    → ((a : A) → (m w).0 ≡ ok a → R a (m w).1)
    → ((a : A) (v : World) → R a v → (b : B) → (k a v).0 ≡ ok b → Q b (k a v).1)
    → (b : B) → ((m >>= k) w).0 ≡ ok b
    → Q b ((m >>= k) w).1
unfolding handle
bind-Ensures_at R Q m k w rm qk b e =
    branch-Ensures R Q _ k (m w) rm (λ x v c q. absurd (cc)) qk b e
