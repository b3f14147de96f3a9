-- ===== src/Tests/Composition.antt =====
-- include/cxxdes/core/impl/any_of.ipp at concrete inputs.
use libcxxdes.Base.{◌≡◌, refl, arith, Bool, true, false, none, some, [], ◌∷◌, length}
use libcxxdes.Core.World.{World, any_of, all_of, done, threw}
use libcxxdes.Core.Composition.{Awaitable, AnyAll, compose, readiness, await_ready, invoke}
use libcxxdes.Core.Composition.Firing.{
  IsFired, invoke_all, invoke-throws, all_of-fires_last, any_of-fires_first,
}
use libcxxdes.Core.Composition.Readiness.{unready, AllReady, SomeReady, await_ready-children}
use libcxxdes.Tests.Worlds.{boom, armed_handler, world_with}

-- Handler 0 waits for two children; its output token is 5.
abbrev all_world : World (Unit {0})
all_world = world_with []

abbrev any_world : World (Unit {0})
any_world = record all_world { handler = λ h. armed_handler any_of 2 }

all_of-fires_last_example :
    (v : World (Unit {0})) × (invoke_all 0 (1 ∷ 2 ∷ []) all_world ≡ done v)
    × IsFired 5 2 all_world v
all_of-fires_last_example =
    all_of-fires_last 0 5 (1 ∷ []) 2 all_world (refl, refl, refl) (omega arith) (refl, tt) refl

any_of-fires_first_example :
    (v : World (Unit {0})) × (invoke_all 0 (1 ∷ 2 ∷ []) any_world ≡ done v)
    × IsFired 5 1 any_world v
any_of-fires_first_example =
    any_of-fires_first 0 5 1 (2 ∷ []) any_world 1 (refl, refl, refl) (omega arith) (omega arith)
      refl (refl, tt)

abbrev failed_world : World (Unit {0})
failed_world = record all_world { token = λ i. record (all_world.token i) { eptr = some boom } }

invoke-throws_example :
    (v : World (Unit {0})) × (invoke 0 1 failed_world ≡ threw boom v)
    × (v.queue ≡ [])
    × (v.token ≡ failed_world.token)
invoke-throws_example = invoke-throws 0 1 failed_world boom refl

-- A child that knows whether it is ready.
abbrev flags : Awaitable (Unit {0}) Bool
flags = record {
  child_bind = λ r p w. done (r, w);
  child_ready = λ r w. (r, r, w);
  child_suspend = λ r c w. done (r, w);
  child_token = λ r. none;
  child_resume = λ r w. done (r, w);
}

abbrev composed : AnyAll Bool
composed = compose any_of (true ∷ false ∷ [])

await_ready-children_example :
    let rs = (readiness flags composed.children all_world).0 in
    let (r, x', v) = await_ready flags composed all_world in
    (x'.ready ≡ rs)
    × (length rs ≡ 2)
    × (x'.remaining ≡ unready rs)
    × (any_of ≡ all_of → (r ≡ true → AllReady rs) × (AllReady rs → r ≡ true))
    × (any_of ≡ any_of → (r ≡ true → SomeReady rs) × (SomeReady rs → r ≡ true))
await_ready-children_example = await_ready-children flags composed all_world
