-- ===== src/Session/Laws.antt =====
-- The model that a session is started with, and the port of the sandbox's endpoint.
use mathlib.Core.List.{Memᴰ}
use bubble_hub.Prelude.{
  ℕ, ◌≤◌, ◌<◌, if◌then◌else◌, String, ◌≡◌, refl, Option, none, some, List, [], ◌∷◌, arith,
  Bool-cases, inl, inr, ◌==◌, string_eq, ap, sym, ◌∙◌, subst,
}
use bubble_hub.Prelude.Dict.{get}
use bubble_hub.Prelude.Int.{ℤ, pos, negsuc, is_positive, to_ℕ}
use bubble_hub.Prelude.Text.{parse_int}
use bubble_hub.Registry.Spec.{ModelSpec, Specialty}
use bubble_hub.Registry.{Query, resolve_candidates, or_string, or_text}
use bubble_hub.Registry
use bubble_hub.Registry.Resolution.{resolve_candidates-exact}
use bubble_hub.Value.{Value, int_of}
use bubble_hub.Value
use bubble_hub.Session.{
  World, Options, sandboxed, native, Result, ok, raise, ◌>>=◌, checked_port, parse_port, limit_gb,
  gigabytes, int_or_zero, query_of, chosen_of, enter, env_text,
}

-- A port that is accepted for the sandbox's endpoint lies between 1 and 65535.
pub parse_port-bounds : (value : String) (n : ℕ) → parse_port value ≡ ok n → (1 ≤ n) × (n ≤ 65535)
unfolding parse_port
parse_port-bounds value n h = port_bounds (parse_int value) h
  where
    port_bounds : (o : Option ℤ) → checked_port o ≡ ok n → (1 ≤ n) × (n ≤ 65535)
    port_bounds none h = cc
    port_bounds (some (pos m)) h = ground arith
    port_bounds (some (negsuc m)) h = cc

pub >>=-succeeds :
    {X Y : Type 0} (first : Result X) (next : X → Result Y) {y : Y}
    → (first >>= next) ≡ ok y
    → (x : X) × (first ≡ ok x) × (next x ≡ ok y)
>>=-succeeds (raise failure) next raised = cc
>>=-succeeds (ok x) next passed = (x, refl, passed)

ok-injective : {A : Type 0} {a b : A} → ok a ≡ ok b → a ≡ b
ok-injective h = cc

chosen_head :
    (name : String) (found : List ModelSpec) {m : ModelSpec}
    → chosen_of name (Registry.Result.ok found) ≡ ok m
    → Memᴰ m found
chosen_head name [] h = cc
chosen_head name (x ∷ rest) h = Memᴰ.head (sym (ok-injective h))

sandboxed_not_native :
    (r : Result String) {m : ModelSpec} {path : String}
    → (r >>= λ url. ok (sandboxed url)) ≡ ok (native m path)
    → ⊥
sandboxed_not_native (ok url) h = cc
sandboxed_not_native (raise e) h = cc

native_same : {m n : ModelSpec} {p path : String} → ok (native n p) ≡ ok (native m path) → n ≡ m
native_same h = cc

-- the amount is within the limit in bytes, or the machine's amount where there is no limit
pub record IsWithin (limit : Value) (hardware amount : ℕ) : Type 0 where
  pub bytes : ℤ
  pub read : int_or_zero (int_of limit) ≡ ok bytes
  pub within : amount ≤ gigabytes (if is_positive bytes then to_ℕ bytes else hardware)

-- what a model has to meet for a session
pub record Fits (world : World) (options : Options) (s : Specialty) (m : ModelSpec) : Type 0 where
  pub known : Memᴰ m world.registry.models
  pub capability : m.capability ≡ or_string options.capability s.capability
  pub flavor : (x : String) → or_text options.flavor s.flavor ≡ some x → m.flavor ≡ x
  pub context : (n : ℕ) → s.min_context_tokens ≡ some n → n ≤ m.context_tokens
  pub ram : IsWithin (Value.get world.limits "ram_bytes") world.hardware.ram_bytes m.ram_gb
  pub vram : IsWithin (Value.get world.limits "vram_bytes") world.hardware.vram_bytes m.vram_gb
  pub backend :
      m.placement ≡ "gpu"
      → 0 < m.vram_gb
      → (b : String) × Memᴰ b world.hardware.gpu_backends × Memᴰ b m.gpu_backends

limit_gb-IsWithin :
    (limit : Value) (hardware n amount : ℕ)
    → limit_gb limit hardware ≡ ok n
    → amount ≤ n
    → IsWithin limit hardware amount
unfolding limit_gb
limit_gb-IsWithin limit hardware n amount h le =
    let (bytes, read, e) = >>=-succeeds (int_or_zero (int_of limit)) _ h in
    record {
      bytes = bytes;
      read = read;
      within = subst (λ k. amount ≤ k) (sym (ok-injective e)) le;
    }

-- A session that was started outside a sandbox, for a specialty that pins no model, has a model of
-- the registry that serves the specialty on this machine: within the scheduler's limits on RAM and
-- VRAM, or the machine's amounts where there is no limit, and on a backend that the machine has.
pub enter-Fits :
    (world : World) (options : Options) (s : Specialty) (m : ModelSpec) (path : String)
    → get world.registry.specialties options.specialty ≡ some s
    → s.model ≡ none
    → enter world options ≡ ok (native m path)
    → Fits world options s m
unfolding enter
enter-Fits world options s m path known free h =
    elim (Bool-cases (env_text world.env "BUBBLEHUB_SANDBOX" == "1")) [
      | inl t ↦ absurd (sandboxed_not_native _ (rw t at h))
      | inr f ↦
          let (ram, ram_ok, h₁) =
            >>=-succeeds (limit_gb (Value.get world.limits "ram_bytes") world.hardware.ram_bytes) _
              (rw f at h) in
          let (vram, vram_ok, h₂) =
            >>=-succeeds (limit_gb (Value.get world.limits "vram_bytes") world.hardware.vram_bytes)
              _ h₁ in
          let q = query_of world options ram vram in
          let (model, chosen, h₃) =
            >>=-succeeds
              (chosen_of options.specialty (resolve_candidates world.registry options.specialty q))
              _ h₂ in
          let (p, _, h₄) = >>=-succeeds (world.ensure_model model) _ h₃ in
          let (found, resolved, exact, _) =
            resolve_candidates-exact world.registry options.specialty q s known free in
          let k =
            chosen_head options.specialty found
              (ap (chosen_of options.specialty) (sym resolved) ∙ chosen) in
          let (mem, serves) = (exact m).0 (subst (λ x. Memᴰ x found) (native_same h₄) k) in
          record {
            known = mem;
            capability = serves.capability;
            flavor = serves.flavor;
            context = serves.context;
            ram =
                limit_gb-IsWithin _ world.hardware.ram_bytes ram m.ram_gb ram_ok
                  (serves.ram ram refl);
            vram =
                limit_gb-IsWithin _ world.hardware.vram_bytes vram m.vram_gb vram_ok
                  (serves.vram vram refl);
            backend = serves.backend world.hardware.gpu_backends refl;
          }
    ]
