-- ===== src/Task.antt =====
-- windows-agent/internal/tasks and the comparator of windows-agent/internal/distros/task.
-- The two task types of the agent, each with its own `Is` method.
use ubuntu_pro_for_wsl.Prelude.{◌≡◌, refl, String, Bool, true, false, arith, Result, ok, err}

pub data Task : Type 0 where
  pro_attachment : String → Task
  landscape_configure : String → Task

-- task.Is: both task types implement `taskWithIs`, so the call goes to their methods.
unfoldable pub is : Task → Task → Bool
is (pro_attachment t) (pro_attachment u) = true
is (landscape_configure t) (landscape_configure u) = true
is (pro_attachment t) (landscape_configure u) = false
is (landscape_configure t) (pro_attachment u) = false

-- A connection to the WSL-Pro-Service: `none` is a nil error.
pub record Connection (E : Type 0) : Type 0 where
  pub send_pro_attachment : String → Result E (Unit {0})
  pub send_landscape_config : String → Result E (Unit {0})

-- NeedsRetryError wraps the error of the connection.
pub data TaskError (E : Type 0) : Type 0 where
  needs_retry : E → TaskError E

as_retry : {E : Type 0} → Result E (Unit {0}) → Result (TaskError E) (Unit {0})
as_retry (ok _) = ok tt
as_retry (err e) = err (needs_retry e)

unfoldable pub execute : {E : Type 0} → Task → Connection E → Result (TaskError E) (Unit {0})
unfolding as_retry
execute (pro_attachment token) conn = as_retry (conn.send_pro_attachment token)
execute (landscape_configure config) conn = as_retry (conn.send_landscape_config config)

-- The comparator of a queue: an equivalence of tasks.
pub record IsComparator {ℓ} {A : Type ℓ} (same : A → A → Bool) : Type ℓ where
  pub reflexive : (a : A) → same a a ≡ true
  pub symmetric : (a b : A) → same a b ≡ same b a
  pub transitive : (a b c : A) → same a b ≡ true → same a c ≡ same b c

-- The comparator of the agent's tasks is an equivalence relation.
pub is-IsComparator : IsComparator is
unfolding is
is-IsComparator = record {
  reflexive = λ a. is_refl a;
  symmetric = λ a b. is_symm a b;
  transitive = λ a b c h. is_trans a b c h;
}
  where
    is_refl : (a : Task) → is a a ≡ true
    is_refl (pro_attachment t) = refl
    is_refl (landscape_configure t) = refl

    is_symm : (a b : Task) → is a b ≡ is b a
    is_symm a b = ground arith

    is_trans : (a b c : Task) → is a b ≡ true → is a c ≡ is b c
    is_trans a b c h = ground arith
