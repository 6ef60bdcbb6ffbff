-- ===== src/Reconciler/Laws/Replicas.antt =====
-- How the two loops of `syncChildPodList` bring the pods to the number of replicas.
use boxroom_cloud_native.Base.{
  ℕ, zero, suc, ◌+◌, ◌-◌, ◌≤◌, leb, ltb, true, Option, none, some, List, [], ◌∷◌, ◌≡◌, refl, arith,
  Option-cases, Bool-cases, ◌⊎◌, inl, inr,
}
use Prim.Native.Nat.{◌^◌}
use boxroom_cloud_native.Base.Slice.{length}
use boxroom_cloud_native.Base.Outcome.{done}
use boxroom_cloud_native.StorageLocation.{pos, negsuc, StorageLocations, Pod, get_pod}
use boxroom_cloud_native.KubeAgent.Restore.{ApiError}
use boxroom_cloud_native.Reconciler.Progress.{ended, panicked}
use boxroom_cloud_native.Reconciler.Server.{Server, State}
use boxroom_cloud_native.Reconciler.Children.{create_child_pod, delete_child_pod}
use boxroom_cloud_native.Reconciler.Sync.{difference, create_pods, delete_pods, adjust_pods}

-- A request that the server refuses only so often: `counted` is the number of its successes,
-- `other` the number of those of the other request, `patience` bounds the refusals to come.
pub record IsCounted {World : Type 0} (request : World → Option ApiError × World)
    (counted other patience : World → ℕ) : Type 0 where
  pub works :
      (w : World)
      → (request w).0 ≡ none
      → (counted (request w).1 ≡ suc (counted w))
        × (other (request w).1 ≡ other w)
        × (patience (request w).1 ≤ patience w)
  pub fails :
      (w : World) (e : ApiError)
      → (request w).0 ≡ some e
      → (counted (request w).1 ≡ counted w)
        × (other (request w).1 ≡ other w)
        × (suc (patience (request w).1) ≤ patience w)

module _ (server : Server) (made gone patience : server.World → ℕ)
    (creates : (pod : Pod) → IsCounted (server.create_pod pod) made gone patience)
    (deletes : (pod : Pod) → IsCounted (server.delete_pod pod) gone made patience) where
  create_pods-made :
      (fuel n : ℕ) (location : StorageLocations) (pod : Pod) (s : State server)
      → get_pod location ≡ done pod
      → n + patience s.world ≤ fuel
      → (s' : State server) × (create_pods server fuel n location s ≡ ended (tt, s'))
        × (made s'.world ≡ n + made s.world)
        × (gone s'.world ≡ gone s.world)
  unfolding create_pods create_child_pod
  create_pods-made fuel zero location pod s built h = (s, refl, omega arith, refl)
  create_pods-made zero (suc n) location pod s built h = absurd (omega (arith, h))
  create_pods-made (suc fuel) (suc n) location pod s built h =
      let s₁ : State server = record s { world = (server.create_pod pod s.world).1 } in
      elim (Option-cases (server.create_pod pod s.world).0) [
        | inl ok ↦
            let (more, same, calm) = (creates pod).works s.world ok in
            let (s', run, m, g) =
              create_pods-made fuel n location pod s₁ built (omega (arith, h, calm)) in
            (s', rw built (rw ok run), omega (arith, m, more), omega (arith, g, same))
        | inr (e, refused) ↦
            let (idle, same, calm) = (creates pod).fails s.world e refused in
            let (s', run, m, g) =
              create_pods-made fuel (suc n) location pod s₁ built (omega (arith, h, calm)) in
            (s', rw built (rw refused run), omega (arith, m, idle), omega (arith, g, same))
      ]

  delete_pods-gone :
      (fuel n : ℕ) (pods : List Pod) (s : State server)
      → n + patience s.world ≤ fuel
      → n ≤ length pods
      → (s' : State server) × (delete_pods server fuel n pods s ≡ ended (tt, s'))
        × (gone s'.world ≡ n + gone s.world)
        × (made s'.world ≡ made s.world)
  unfolding delete_pods delete_child_pod
  delete_pods-gone fuel zero pods s h l = (s, refl, omega arith, refl)
  delete_pods-gone zero (suc n) pods s h l = absurd (omega (arith, h))
  delete_pods-gone (suc fuel) (suc n) [] s h l = absurd (omega (arith, l))
  delete_pods-gone (suc fuel) (suc n) (pod ∷ pods) s h l =
      let w = (server.delete_pod pod s.world).1 in
      elim (Option-cases (server.delete_pod pod s.world).0) [
        | inl ok ↦
            let (more, same, calm) = (deletes pod).works s.world ok in
            let (s', run, g, m) =
              delete_pods-gone fuel n pods
                (record {
                  world = w;
                  deleted_pods = server.add_deleted pod.meta.name s.deleted_pods;
                })
                (omega (arith, h, calm)) (omega (arith, l)) in
            (s', rw ok run, omega (arith, g, more), omega (arith, m, same))
        | inr (e, refused) ↦
            let (idle, same, calm) = (deletes pod).fails s.world e refused in
            let (s', run, g, m) =
              delete_pods-gone fuel (suc n) (pod ∷ pods) (record s { world = w })
                (omega (arith, h, calm)) l in
            (s', rw refused run, omega (arith, g, idle), omega (arith, m, same))
      ]

  -- If the server refuses only so many requests, and the location's pod can be built, then the loop
  -- of `syncChildPodList`, for a number of replicas that is not negative, ends within as many rounds
  -- as pods are missing or too many, plus the refusals to come; the pods that it has created and
  -- those that it has deleted make up the difference between the pods listed and the replicas
  -- exactly; and it has created no pod or deleted none.
  pub adjust_pods-reaches_replicas :
      (fuel replicas : ℕ) (location : StorageLocations) (pod : Pod) (pods : List Pod)
      (s : State server)
      → get_pod location ≡ done pod
      → (replicas - length pods) + (length pods - replicas) + patience s.world ≤ fuel
      → (s' : State server) × (adjust_pods server fuel
            (difference (pos replicas) (length pods))
            location
            pods
            s
          ≡ ended (tt, s'))
        × (length pods + made s'.world + gone s.world ≡ replicas + gone s'.world + made s.world)
        × ((made s'.world ≡ made s.world) ⊎ (gone s'.world ≡ gone s.world))
  unfolding adjust_pods
  adjust_pods-reaches_replicas fuel r location pod pods s built h =
      elim (Bool-cases (leb (length pods) r)) [
        | inl few ↦
            let at_most : length pods ≤ r = ground (arith, few) in
            let (s', run, m, g) =
              create_pods-made fuel (r - length pods) location pod s built (omega (arith, h)) in
            (s', rw few run, omega (arith, m, g, at_most), inr g)
        | inr many ↦
            let more : suc r ≤ length pods = ground (arith, many) in
            let one_more : suc (length pods - r - 1) ≡ length pods - r = omega (arith, more) in
            let (s', run, g, m) =
              delete_pods-gone fuel (suc (length pods - r - 1)) pods s (omega (arith, h, more))
                (omega (arith, more)) in
            (s', rw many run, omega (arith, m, g, more), inl m)
      ]

  delete_pods-runs_out :
      (fuel n : ℕ) (pods : List Pod) (s : State server)
      → suc (length pods + patience s.world) ≤ fuel
      → suc (length pods) ≤ n
      → delete_pods server fuel n pods s ≡ panicked
  unfolding delete_pods delete_child_pod
  delete_pods-runs_out fuel zero pods s h l = absurd (omega (arith, l))
  delete_pods-runs_out zero (suc n) pods s h l = absurd (omega (arith, h))
  delete_pods-runs_out (suc fuel) (suc n) [] s h l = refl
  delete_pods-runs_out (suc fuel) (suc n) (pod ∷ pods) s h l =
      let w = (server.delete_pod pod s.world).1 in
      elim (Option-cases (server.delete_pod pod s.world).0) [
        | inl ok ↦
            let (more, same, calm) = (deletes pod).works s.world ok in
            rw ok (
              delete_pods-runs_out fuel n pods
                (record {
                  world = w;
                  deleted_pods = server.add_deleted pod.meta.name s.deleted_pods;
                })
                (omega (arith, h, calm)) (omega (arith, l)))
        | inr (e, refused) ↦
            let (idle, same, calm) = (deletes pod).fails s.world e refused in
            rw refused (
              delete_pods-runs_out fuel (suc n) (pod ∷ pods) (record s { world = w })
                (omega (arith, h, calm)) l)
      ]

  -- If the server refuses only so many requests, the number of replicas is negative and the pods
  -- listed can be subtracted from it without a wrap-around of the 64-bit integers, then the loop of
  -- `syncChildPodList` panics, within one more round than pods listed and refusals to come.
  pub adjust_pods-negative_panics :
      (fuel below : ℕ) (location : StorageLocations) (pods : List Pod) (s : State server)
      → suc (length pods + patience s.world) ≤ fuel
      → ltb (below + length pods) (2 ^ 63) ≡ true
      → adjust_pods server fuel (difference (negsuc below) (length pods)) location pods s ≡ panicked
  unfolding adjust_pods
  adjust_pods-negative_panics fuel below location pods s h fits =
      rw fits (delete_pods-runs_out fuel (suc (below + length pods)) pods s h (omega arith))
