-- ===== src/Ecs/Known.antt =====
-- The servers that the configuration service knows, and what it is to keep them.
use distributed_storage_with.Base.{
  ◌≡◌, ◌≤◌, refl, List, [], ◌∷◌, ◌++◌, length, Result, ok, throw, Effect, proceed, arith,
}
use mathlib.Core.List.{Perm}
use distributed_storage_with.Ring.Metadata.{EcsNode}
use distributed_storage_with.Ecs.{EcsWorld, EcsClient, EcsBoth}

-- Every server that the service knows.
abbrev pub known : EcsClient → List EcsNode
known s = s.idle_servers ++ s.active_servers

-- If the command returns, the known servers are those of before; if it throws, at most one is lost.
abbrev pub Conserves {ℓ} : {A : Type ℓ} → EcsClient → Result A → EcsClient → Type 0
Conserves s (ok a) t = Perm (known s) (known t)
Conserves s (throw e) t =
    (lost : List EcsNode) × (length lost ≤ 1) × Perm (known s) (lost ++ known t)

pub Conserves-kept {ℓ} :
    {A : Type ℓ} (s t : EcsClient) (r : Result A) → Perm (known s) (known t) → Conserves s r t
Conserves-kept s t (ok a) p = p
Conserves-kept s t (throw e) p = ([], omega arith, p)

module _ (env : EcsWorld) where
  abbrev pub ConservesBoth {ℓ} : {A : Type ℓ} → EcsClient → Effect (EcsBoth env) A → Type 0
  ConservesBoth s (r, (t, w)) = Conserves s r t

  -- While one server is neither idle nor active.
  pub proceed_pending {ℓ κ} :
      {A : Type ℓ} {B : Type κ} (node : EcsNode) (s t : EcsClient) (w : env.network.World)
      (r : Result A) (f : A → Effect (EcsBoth env) B)
      → Perm (known s) (node ∷ known t)
      → ((a : A) → r ≡ ok a → ConservesBoth s (f a))
      → ConservesBoth s (proceed r (t, w) f)
  proceed_pending node s t w (ok a) f p later = later a refl
  proceed_pending node s t w (throw e) f p later = (node ∷ [], omega arith, p)

  -- No server is lost, whether the command returns or throws.
  abbrev pub KeepsKnown {ℓ} : {A : Type ℓ} → EcsClient → Effect (EcsBoth env) A → Type 0
  KeepsKnown s (r, (t, w)) = Perm (known s) (known t)

  pub KeepsKnown-Conserves {ℓ} :
      {A : Type ℓ} (s : EcsClient) (e : Effect (EcsBoth env) A) → KeepsKnown s e → ConservesBoth s e
  KeepsKnown-Conserves s (r, (t, w)) p = Conserves-kept s t r p

  pub proceed-KeepsKnown {ℓ κ} :
      {A : Type ℓ} {B : Type κ} (s t : EcsClient) (w : env.network.World) (r : Result A)
      (f : A → Effect (EcsBoth env) B)
      → Perm (known s) (known t)
      → ((a : A) → r ≡ ok a → KeepsKnown s (f a))
      → KeepsKnown s (proceed r (t, w) f)
  proceed-KeepsKnown s t w (ok a) f p later = later a refl
  proceed-KeepsKnown s t w (throw e) f p later = p

  pub after-KeepsKnown {ℓ κ} :
      {A : Type ℓ} {B : Type κ} (s : EcsClient) (e : Effect (EcsBoth env) A)
      (f : A → Effect (EcsBoth env) B)
      → KeepsKnown s e
      → ((a : A) → KeepsKnown s e → KeepsKnown s (f a))
      → KeepsKnown s (proceed e.0 e.1 f)
  after-KeepsKnown s (ok a, (t, w)) f p later = later a p
  after-KeepsKnown s (throw x, (t, w)) f p later = p
