-- ===== src/ModuleApi/Context/Access.antt =====
-- The checks that a module's file, network, name and bind accesses pass.
use nyarix_runtime.Base.{
  ℕ, ◌≡◌, refl, ap, inl, inr, Bool, true, not, ◌||◌, List, [], ◌∷◌, none, some, Result, ok, err,
  arith, ltb, if◌then◌else◌, Bool-cases, Option-cases,
}
use nyarix_runtime.Errors.{
  SecurityError, capability_denied, sandbox_violation, file_not_whitelisted,
  network_not_whitelisted, dns_not_whitelisted, rate_limit_exceeded,
}
use nyarix_runtime.ModuleApi.Capability.{
  MaskOps, Capability, filesystem, network, dns, privileged_sockets, has,
}
use nyarix_runtime.ModuleApi.IoPolicy.{FilePath, allows_path, allows, allows_host}
use nyarix_runtime.ModuleApi.RateLimiter.{Floats, try_acquire}
use nyarix_runtime.ModuleApi.Event.{Event}
use nyarix_runtime.ModuleApi.Event.Bus.{Broadcast}
use nyarix_runtime.ModuleApi.Context.{
  RuntimeContext, ModuleMetadata, Checked, ◌then_check◌, emit_event, request_capability,
  check_rate_limit, check_file_access, check_network_access, check_dns_resolve, check_bind_access,
}

-- The answer of conditions that are tested in order, each with the error for its failure.
abbrev pub first_refusal : List (Bool × SecurityError) → Result (Unit {0}) SecurityError
first_refusal [] = ok tt
first_refusal ((holds, e) ∷ rest) = if holds then first_refusal rest else err e

module _ {D C R : Type 0} (fl : Floats) where
  -- Whether the limiter, if there is one, has a token.
  abbrev pub admits : ℕ → RuntimeContext D C R → Bool
  admits now k = elim k.io_rate_limiter [
    | none ↦ true
    | some limiter ↦ (try_acquire fl now limiter).1
  ]

  -- The context after the limiter was asked.
  abbrev pub charged : ℕ → RuntimeContext D C R → RuntimeContext D C R
  charged now k = elim k.io_rate_limiter [
    | none ↦ k
    | some limiter ↦ record k { io_rate_limiter = some ((try_acquire fl now limiter).0) }
  ]

  check_rate_limit_lem :
      (now : ℕ) (k : RuntimeContext D C R) (m : ModuleMetadata)
      → check_rate_limit fl now k m ≡ (
        charged now k,
        if admits now k then ok tt else err (sandbox_violation m.name rate_limit_exceeded),
      )
  unfolding check_rate_limit
  check_rate_limit_lem now k m = elim (Option-cases k.io_rate_limiter) [
    | inl e ↦ ground (arith, e)
    | inr (l, e) ↦ elim (Bool-cases (try_acquire fl now l).1) [
      | inl yes_ ↦ ground (arith, e, yes_)
      | inr no_ ↦ ground (arith, e, no_)
    ]
  ]

  -- The limiter is all that is charged.
  charged_kept :
      (now : ℕ) (k : RuntimeContext D C R)
      → ((charged now k).filesystem_policy ≡ k.filesystem_policy)
        × ((charged now k).network_policy ≡ k.network_policy)
  charged_kept now k = elim (Option-cases k.io_rate_limiter) [
    | inl e ↦ ground (arith, e)
    | inr (l, e) ↦ ground (arith, e)
  ]

  -- The end of three of the checks.
  listed_lem :
      (now : ℕ) (k : RuntimeContext D C R) (m : ModuleMetadata)
      (listed : RuntimeContext D C R → Bool) (refused : SecurityError)
      → listed (charged now k) ≡ listed k
      → (check_rate_limit fl now k m
          then_check (λ k. if listed k then (k, ok tt) else (k, err refused)))
        ≡ (
          charged now k,
          first_refusal (
              (admits now k, sandbox_violation m.name rate_limit_exceeded)
              ∷ (listed k, refused)
              ∷ []),
        )
  listed_lem now k m listed refused same = elim (Bool-cases (admits now k)) [
    | inl yes_ ↦ elim (Bool-cases (listed k)) [
      | inl in_ ↦ rw (check_rate_limit_lem now k m, yes_, same, in_) refl
      | inr out ↦ rw (check_rate_limit_lem now k m, yes_, same, out) refl
    ]
    | inr no_ ↦ rw (check_rate_limit_lem now k m, no_) refl
  ]

module _ {D C R : Type 0} (mo : MaskOps) (bc : Broadcast C R Event) (fl : Floats) where
  abbrev denied :
      Capability → RuntimeContext D C R → ModuleMetadata → Checked (RuntimeContext D C R)
  denied c k m =
      (emit_event bc k (Event.capability_denied m.name c), err (capability_denied m.name c))

  request_capability_lem :
      (c : Capability) (k : RuntimeContext D C R) (m : ModuleMetadata)
      → request_capability mo bc c k m
        ≡ (if has mo k.granted_capabilities c then (k, ok tt) else denied c k m)
  unfolding request_capability
  request_capability_lem c k m = refl

  -- A check of a capability, of the rate and of a whitelist: what it answers, and what it leaves.
  abbrev pub Guarded :
      ℕ
      → Capability
      → Bool
      → SecurityError
      → RuntimeContext D C R
      → ModuleMetadata
      → Checked (RuntimeContext D C R)
      → Type 0
  Guarded now c listed refused k m checked = checked ≡ (
    if has mo k.granted_capabilities c
        then charged fl now k
        else emit_event bc k (Event.capability_denied m.name c),
    first_refusal (
        (has mo k.granted_capabilities c, capability_denied m.name c)
        ∷ (admits fl now k, sandbox_violation m.name rate_limit_exceeded)
        ∷ (listed, refused)
        ∷ []),
  )

  Guarded_lem :
      (now : ℕ) (c : Capability) (k : RuntimeContext D C R) (m : ModuleMetadata)
      (listed : RuntimeContext D C R → Bool) (refused : SecurityError)
      → listed (charged fl now k) ≡ listed k
      → Guarded now c (listed k) refused k m (
          request_capability mo bc c k m
          then_check (λ k. check_rate_limit fl now k m)
          then_check (λ k. if listed k then (k, ok tt) else (k, err refused)))
  Guarded_lem now c k m listed refused same = elim (Bool-cases (has mo k.granted_capabilities c)) [
    | inl yes_ ↦
        rw (request_capability_lem c k m, yes_, listed_lem fl now k m listed refused same) refl
    | inr no_ ↦ rw (request_capability_lem c k m, no_) refl
  ]

  -- The check of a port to bind: what it answers, and what it leaves.
  abbrev pub BindGuarded :
      ℕ → ℕ → RuntimeContext D C R → ModuleMetadata → Checked (RuntimeContext D C R) → Type 0
  BindGuarded now port k m checked =
      let own = has mo k.granted_capabilities network in
      let low = not (ltb port 1024) || has mo k.granted_capabilities privileged_sockets in
      checked ≡ (
        if own
            then (if low then charged fl now k else (denied privileged_sockets k m).0)
            else (denied network k m).0,
        first_refusal (
            (own, capability_denied m.name network)
            ∷ (low, capability_denied m.name privileged_sockets)
            ∷ (admits fl now k, sandbox_violation m.name rate_limit_exceeded)
            ∷ []),
      )

  check_bind_access-BindGuarded :
      (now port : ℕ) (k : RuntimeContext D C R) (m : ModuleMetadata)
      → BindGuarded now port k m (check_bind_access mo bc fl now port k m)
  unfolding check_bind_access
  check_bind_access-BindGuarded now port k m =
      elim (Bool-cases (has mo k.granted_capabilities network)) [
        | inr no_ ↦ rw (request_capability_lem network k m, no_) refl
        | inl yes_ ↦ elim (Bool-cases (ltb port 1024)) [
          | inr high ↦
              rw (request_capability_lem network k m, yes_, high, check_rate_limit_lem fl now k m)
                refl
          | inl low ↦ elim (Bool-cases (has mo k.granted_capabilities privileged_sockets)) [
            | inl may ↦
                rw
                  (
                    request_capability_lem network k m,
                    yes_,
                    low,
                    request_capability_lem privileged_sockets k m,
                    may,
                    check_rate_limit_lem fl now k m,
                  )
                  refl
            | inr may_not ↦
                rw
                  (
                    request_capability_lem network k m,
                    yes_,
                    low,
                    request_capability_lem privileged_sockets k m,
                    may_not,
                  )
                  refl
          ]
        ]
      ]

  -- The access checks of files, network and names answer with the failure of the first condition that
  -- does not hold: the capability, a token of the rate limiter, the whitelist. Without the capability
  -- the denial is published and no token is taken; else the limiter is charged, also where the
  -- whitelist then refuses. Binding asks for the capability, for that of privileged sockets below port
  -- 1024, and for a token.
  pub check-Guarded :
      (now : ℕ) (path : FilePath) (host port : ℕ) (k : RuntimeContext D C R) (m : ModuleMetadata)
      → Guarded now filesystem
          (allows_path k.filesystem_policy path)
          (sandbox_violation m.name (file_not_whitelisted path))
          k
          m
          (check_file_access mo bc fl now path k m)
        × Guarded now network
            (allows k.network_policy host port)
            (sandbox_violation m.name (network_not_whitelisted host port))
            k
            m
            (check_network_access mo bc fl now host port k m)
        × Guarded now dns
            (allows_host k.network_policy host)
            (sandbox_violation m.name (dns_not_whitelisted host))
            k
            m
            (check_dns_resolve mo bc fl now host k m)
        × BindGuarded now port k m (check_bind_access mo bc fl now port k m)
  unfolding check_file_access check_network_access check_dns_resolve
  check-Guarded now path host port k m = (
    Guarded_lem now filesystem k m (λ k. allows_path k.filesystem_policy path)
        (sandbox_violation m.name (file_not_whitelisted path))
        (ap (λ policy. allows_path policy path) ((charged_kept fl now k).0)),
    Guarded_lem now network k m (λ k. allows k.network_policy host port)
        (sandbox_violation m.name (network_not_whitelisted host port))
        (ap (λ policy. allows policy host port) ((charged_kept fl now k).1)),
    Guarded_lem now dns k m (λ k. allows_host k.network_policy host)
        (sandbox_violation m.name (dns_not_whitelisted host))
        (ap (λ policy. allows_host policy host) ((charged_kept fl now k).1)),
    check_bind_access-BindGuarded now port k m,
  )
