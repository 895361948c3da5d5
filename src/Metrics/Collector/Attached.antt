-- ===== src/Metrics/Collector/Attached.antt =====
-- How many programs are attached.
use nesquic.Prelude.{
  ℕ, ◌≡◌, List, some, length, ok, suc, arith, none, ◌+◌, err, ◌-◌, ◌∷◌, panic, stuck, [], Option,
  ◌⊎◌, refl, inr, inl, ◌∙◌, String,
}
use nesquic.Prelude.Tasks.{◌>>=◌, pure, or_fail, continue}
use nesquic.Text.{Text}
use nesquic.Metrics.Collector.{
  Bpf, programs, monitor_io, Outcome, attach_all, dropping, message, detach_all, monitored,
  poll_events, drop_links,
}
use mathlib.Core.Path.{subst}
use nesquic.Prelude.Keeps.{Keeps, bind-Keeps}

-- What the kernel keeps of the attached programs: their number.
pub record Counts {World Link : Type 0} (bpf : Bpf World Link) (count : World → ℕ) : Type 0 where
  pub attached :
      (program : Text) (skel : bpf.Skel) (w : World) {link : Link} {w' : World}
      → bpf.attach program skel w ≡ (some link, w')
      → count w' ≡ suc (count w)
  pub refused :
      (program : Text) (skel : bpf.Skel) (w w' : World)
      → bpf.attach program skel w ≡ (none, w')
      → count w' ≡ count w
  pub detached : (link : Link) (w : World) → count (bpf.detach link w) ≡ count w - 1
  pub added : (skel : bpf.Skel) (w : World) → count (bpf.add_events skel w).1 ≡ count w
  pub built : (w : World) → count (bpf.build w).1 ≡ count w
  pub spawned : (ringbuf : bpf.RingBuffer) (w : World) → count (bpf.spawn ringbuf w) ≡ count w

module _ {World Link : Type 0} (bpf : Bpf World Link) {count : World → ℕ}
    (laws : Counts bpf count) where
  open bpf use {Skel, attach}

  -- As many more programs are attached as there are links, and none more after an error.
  Counted : ℕ → ℕ → Outcome (List Link) × World → Type 0
  Counted m k (ok links, w) = (length links ≡ k) × (count w ≡ m + k)
  Counted m k (err e, w) = count w ≡ m
  Counted m k (panic, w) = ⊥
  Counted m k (stuck, w) = ⊥

  attach_all-Counted :
      (skel : Skel) (ps : List Text) (w : World)
      → Counted (count w) (length ps) (attach_all bpf skel ps w)
  unfolding attach_all Counted dropping detach_all
  attach_all-Counted skel [] w = (refl, omega arith)
  attach_all-Counted skel (program ∷ more) w =
      go (attach_all-Counted skel more) (attach program skel w) refl
    where
      rest :
          (link : Link) (m : ℕ) (p : Outcome (List Link) × World)
          → Counted (suc m) (length more) p
          → Counted m (suc (length more)) (
              continue
                (dropping bpf (link ∷ []) p).0
                (λ links. pure (link ∷ links))
                (dropping bpf (link ∷ []) p).1)
      rest link m (ok links, u) (same, more) = (omega (arith, same), omega (arith, more))
      rest link m (err e, u) h = omega (arith, h, laws.detached link u)
      rest link m (panic, u) h = absurd h
      rest link m (stuck, u) h = absurd h

      go :
          ((u : World) → Counted (count u) (length more) (attach_all bpf skel more u))
          → (p : Option Link × World) → attach program skel w ≡ p
          → Counted (count w) (suc (length more)) (
              continue
                (message "Failed to attach" p.0)
                (λ link.
                  (λ w. dropping bpf (link ∷ []) (attach_all bpf skel more w))
                  >>= (λ links. pure (link ∷ links)))
                p.1)
      go rec (none, u) e = laws.refused program skel w u e
      go rec (some link, u) e = rest link (count w) (attach_all bpf skel more u) (
          subst (λ m. Counted m (length more) (attach_all bpf skel more u))
            (laws.attached program skel w e) (rec u))

  poll_events-Keeps : (m : ℕ) (skel : Skel) → Keeps (λ w. count w ≡ m) (poll_events bpf skel)
  unfolding poll_events
  poll_events-Keeps m skel =
      bind-Keeps (λ w. count w ≡ m) (or_fail (bpf.add_events skel) _) _
        (λ w h. laws.added skel w ∙ h)
        (λ _.
          bind-Keeps (λ w. count w ≡ m) (or_fail bpf.build _) _ (λ w h. laws.built w ∙ h)
            (λ ringbuf w h. laws.spawned ringbuf w ∙ h))

  -- When no program is attached, `monitor_io` either is an error and leaves no link and no program
  -- attached, or leaves ten links and ten programs attached.
  pub monitor_io-links :
      (skel : Skel) (w : World)
      → count w ≡ 0
      → let r = monitor_io bpf skel none w in
        ((e : String) × (r.0.0 ≡ err e) × (r.0.1 ≡ none) × (count r.1 ≡ 0))
        ⊎ ((links : List Link) × (r.0.1 ≡ some links) × (length links ≡ 10) × (count r.1 ≡ 10))
  unfolding monitor_io monitored drop_links Counted programs
  monitor_io-links skel w h =
      go (attach_all bpf skel programs w) (attach_all-Counted skel programs w)
    where
      go :
          (p : Outcome (List Link) × World)
          → Counted (count w) 10 p
          → let r = monitored bpf skel none p in
            ((e : String) × (r.0.0 ≡ err e) × (r.0.1 ≡ none) × (count r.1 ≡ 0))
            ⊎ ((links : List Link) × (r.0.1 ≡ some links) × (length links ≡ 10) × (count r.1 ≡ 10))
      go (ok links, u) k =
          inr (links, refl, k.0, poll_events-Keeps 10 skel u (omega (arith, k.1, h)))
      go (err e, u) k = inl (e, refl, refl, k ∙ h)
      go (panic, u) k = absurd k
      go (stuck, u) k = absurd k
