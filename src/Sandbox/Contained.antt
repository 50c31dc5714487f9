-- ===== src/Sandbox/Contained.antt =====
-- What a run of a container reports and leaves behind.
use ta_platform.Prelude.Results.{Result, ok, err}
use ta_platform.Prelude.{
  ℕ, ◌≡◌, refl, ap, ◌⊎◌, inl, inr, Option, none, some, List, [], ◌∷◌, ◌++◌, Bool-cases, All, String,
}
use ta_platform.Sandbox.{
  ExecutionSpec, SpecError, normalize, Engine, Command, create, start, kill, inspect, remove,
  remove_all, killed, started, container_name, with_snapshot, with_spec, run_container,
}

-- A call on the container, or its creation with the directory.
abbrev pub Concerns : List ℕ → String → Command → Type 0
Concerns name dir (create n d spec) = (n ≡ name) × (d ≡ dir)
Concerns name dir (start n) = n ≡ name
Concerns name dir (kill n) = n ≡ name
Concerns name dir (inspect n) = n ≡ name
Concerns name dir (remove n) = n ≡ name
Concerns name dir (remove_all d) = d ≡ dir

-- The calls of a run that had a snapshot: they begin with the creation of a container on the directory of
-- the snapshot, concern only these two, and end with the requests to remove both.
pub record IsCleaned (e : Engine) (calls : List Command) : Type 0 where
  pub name : List ℕ
  pub spec : ExecutionSpec
  pub dir : String
  pub written : e.snapshot spec ≡ some dir
  pub between : List Command
  pub shape : calls ≡ create name dir spec ∷ between ++ (remove name ∷ remove_all dir ∷ [])
  pub one_container : All (Concerns name dir) between

killed-one :
    (name : List ℕ) (dir : String) (spec : ExecutionSpec) (e : Engine)
    → All (Concerns name dir) (killed name spec e).0
unfolding killed
killed-one name dir spec e = elim (Bool-cases e.request_ended) [
  | inl p ↦ rw p (refl, tt)
  | inr p ↦ elim (Bool-cases e.kill_fails) [
    | inl q ↦ rw (p, q) (refl, (refl, tt))
    | inr q ↦ rw (p, q) (refl, tt)
  ]
]

started-one :
    (name : List ℕ) (dir : String) (spec : ExecutionSpec) (e : Engine)
    → (between : List Command) × ((started name dir spec e).0 ≡ create name dir spec ∷ between)
      × All (Concerns name dir) between
unfolding started
started-one name dir spec e = elim (Bool-cases e.create_fails) [
  | inl p ↦ rw p ([], refl, tt)
  | inr p ↦ elim (Bool-cases e.run_ended) [
    | inl q ↦
        rw (p, q) (start name ∷ (killed name spec e).0, refl, (refl, killed-one name dir spec e))
    | inr q ↦ rw (p, q) (start name ∷ inspect name ∷ [], refl, (refl, (refl, tt)))
  ]
]

-- A run makes no call at all, or it creates a container on the directory of its snapshot, its calls concern
-- only this container and this directory, and the last two ask the engine to remove the one and the file
-- system to remove the other, whatever fails or ends in between.
pub run_container-IsCleaned :
    (e : Engine) (s : ExecutionSpec)
    → ((run_container e s).0 ≡ []) ⊎ IsCleaned e (run_container e s).0
unfolding run_container with_spec with_snapshot
run_container-IsCleaned e s = of_spec (normalize s)
  where
    of_snapshot :
        (spec : ExecutionSpec) (d : Option String)
        → e.snapshot spec ≡ d
        → ((with_snapshot spec e d).0 ≡ []) ⊎ IsCleaned e (with_snapshot spec e d).0
    of_snapshot spec none h = inl refl
    of_snapshot spec (some dir) h =
        let name : List ℕ = container_name spec.execution_id in
        let (between, shape, concerns) = started-one name dir spec e in
        inr (record {
          name = name;
          spec = spec;
          dir = dir;
          written = h;
          between = between;
          shape = ap (λ l. l ++ (remove name ∷ remove_all dir ∷ [])) shape;
          one_container = concerns;
        })

    of_spec :
        (r : Result SpecError ExecutionSpec)
        → ((with_spec e r).0 ≡ []) ⊎ IsCleaned e (with_spec e r).0
    of_spec (err bad) = inl refl
    of_spec (ok spec) = of_snapshot spec (e.snapshot spec) refl
