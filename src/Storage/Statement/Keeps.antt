-- ===== src/Storage/Statement/Keeps.antt =====
-- What a call keeps of the world, by the shape of the code that makes it.
use brawl_stars_guide.Base.{ℕ, ◌≡◌, ap, Error, Result, ok, err, Bool-cases, inl, inr}
use brawl_stars_guide.Storage.Schema.{Db}
use brawl_stars_guide.Storage.Statement.{
  Env, World, M, Statement, branch, handle, settle, exec, pure,
}

abbrev pub Keeps : (World → Type 0) → {A : Type 0} → M A → Type 0
Keeps P m = (w : World) → P w → P (m w).1

-- A call that leads from worlds with P to worlds with Q.
abbrev pub Leads : (World → Type 0) → (World → Type 0) → {A : Type 0} → M A → Type 0
Leads P Q m = (w : World) → P w → Q (m w).1

branch-leads :
    {A B : Type 0} (Q R : World → Type 0) (h : Error → M B) (k : A → M B) (r : Result A × World)
    → ((x : Error) → Leads Q R (h x))
    → ((a : A) → Leads Q R (k a))
    → Q r.1
    → R (branch h k r).1
branch-leads Q R h k (ok a, w) kh kk q = kk a w q
branch-leads Q R h k (err x, w) kh kk q = kh x w q

pub handle-Leads :
    {A B : Type 0} (P Q R : World → Type 0) (m : M A) (h : Error → M B) (k : A → M B)
    → Leads P Q m
    → ((x : Error) → Leads Q R (h x))
    → ((a : A) → Leads Q R (k a))
    → Leads P R (handle m h k)
unfolding handle
handle-Leads P Q R m h k km kh kk w p = branch-leads Q R h k (m w) kh kk (km w p)

pub handle-keeps :
    {A B : Type 0} (P : World → Type 0) (m : M A) (h : Error → M B) (k : A → M B)
    → Keeps P m
    → ((x : Error) → Keeps P (h x))
    → ((a : A) → Keeps P (k a))
    → Keeps P (handle m h k)
handle-keeps P m h k km kh kk = handle-Leads P P P m h k km kh kk

-- For `>>=`, where an error ends the call.
pub bind-keeps :
    {A B : Type 0} (P : World → Type 0) (m : M A) (k : A → M B)
    → Keeps P m
    → ((a : A) → Keeps P (k a))
    → Keeps P (handle m (λ x. pure (err x)) k)
bind-keeps P m k km kk = handle-keeps P m _ k km (λ x w p. p) kk

-- What does not depend on the step or the database is kept by every statement.
pub exec-keeps :
    {A : Type 0} (P : World → Type 0) (e : Env) (s : Statement A)
    → ((w : World) (n : ℕ) (d : Db) → P w → P (record w { step = n; db = d }))
    → Keeps P (exec e s)
unfolding exec
exec-keeps {A} P e s stable w p = elim (Bool-cases (e.fails w.step)) [
  | inl f ↦ rw (f, exec) (stable w _ _ p)
  | inr f ↦ rw (f, exec) (settled (s (e.db_now w.step) (e.others w.step w.db)))
]
  where
    settled : (r : Result A × Db) → P (settle w (e.others w.step w.db) r).1
    settled (ok a, d) = stable w _ _ p
    settled (err x, d) = stable w _ _ p

-- A statement that keeps Q of the database, among others that do.
pub exec-keeps_db :
    {A : Type 0} (Q : Db → Type 0) (e : Env) (s : Statement A)
    → ((n : ℕ) (d : Db) → Q d → Q (e.others n d))
    → ((now : ℕ) (d : Db) → Q d → Q (s now d).1)
    → Keeps (λ w. Q w.db) (exec e s)
unfolding exec
exec-keeps_db {A} Q e s others keeps w q = elim (Bool-cases (e.fails w.step)) [
  | inl f ↦ rw (f, exec) (others w.step w.db q)
  | inr f ↦
      rw (f, exec)
        (settled (s (e.db_now w.step) (e.others w.step w.db))
          (keeps (e.db_now w.step) _ (others w.step w.db q)))
]
  where
    settled : (r : Result A × Db) → Q r.1 → Q (settle w (e.others w.step w.db) r).1.db
    settled (ok a, d) h = h
    settled (err x, d) h = others w.step w.db q

-- What follows a value.
pub after-ok :
    {A B : Type 0} (m : M A) (h : Error → M B) (k : A → M B) (a : A) (w : World)
    → (m w).0 ≡ ok a
    → handle m h k w ≡ k a (m w).1
unfolding handle
after-ok {A} {B} m h k a w t = go (m w) t
  where
    go : (r : Result A × World) → r.0 ≡ ok a → branch h k r ≡ k a r.1
    go (ok b, v) s = ap (λ (r : Result A). elim r [ ok c ↦ k c v | err y ↦ k a v ]) s
    go (err x, v) s = absurd (cc)
