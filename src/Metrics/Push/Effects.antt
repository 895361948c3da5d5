-- ===== src/Metrics/Push/Effects.antt =====
-- What a push and a report leave behind.
use nesquic.Prelude.{
  ℕ, List, ◌≡◌, none, some, [], Bool, if◌then◌else◌, refl, true, false, Option, err, ◌∷◌, length,
  ◌-◌, arith, ◌∙◌,
}
use nesquic.Prelude.Tasks.{pure}
use nesquic.Prelude.Keeps.{Keeps, bind-Keeps, continue-Keeps}
use nesquic.Text.{Text, codes}
use nesquic.Metrics.Collector.{detach_all, drop_links}
use nesquic.Metrics.Lines.{Numbers, Statics, collect_line_protocol, io_lines, sum_from}
use nesquic.Metrics.Push.{
  MetricsCollector, Influx, HttpRequest, Target, push_all, insert_tag, write_lines, outside,
  check_status, refused, report, write_request, take_links, report_statics, report_throughput,
  report_volumes, print_line, lift,
}
use nesquic.Metrics.Tags.{build_tag_str}
use nesquic.Metrics.Volumes.{Volumes}

-- How many programs a collector has links of.
abbrev pub held : {Link : Type 0} → Option (List Link) → ℕ
held none = 0
held (some links) = length links

-- What the kernel keeps of the attached programs is their number: dropping a link detaches one.
abbrev pub Detaches : {World Link : Type 0} → (Link → World → World) → (World → ℕ) → Type 0
Detaches {World} {Link} detach count =
    (link : Link) (w : World) → count (detach link w) ≡ count w - 1

module _ {World Link : Type 0} (detach : Link → World → World) (count : World → ℕ)
    (detached : Detaches detach count) where
  detach_all-count :
      (links : List Link) (w : World)
      → count w ≡ length links
      → count (detach_all detach links w) ≡ 0
  unfolding detach_all
  detach_all-count [] w h = h
  detach_all-count (link ∷ links) w h =
      detach_all-count links (detach link w) (omega (arith, detached link w, h))

  drop_links-count :
      (links : Option (List Link)) (w : World)
      → count w ≡ held links
      → count (drop_links detach links w) ≡ 0
  unfolding drop_links
  drop_links-count none w h = h
  drop_links-count (some links) w h = detach_all-count links w h

-- The clock and the HTTP client attach and detach no program.
pub record IsApart {World : Type 0} (influx : Influx World) (count : World → ℕ) : Type 0 where
  pub clocked : (w : World) → count (influx.since_epoch w).1 ≡ count w
  pub sent : (request : HttpRequest) (w : World) → count (influx.send request w).1 ≡ count w
  pub answered : (resp : influx.Response) (w : World) → count (influx.text resp w).1 ≡ count w

-- Writing a line attaches and detaches no program.
abbrev pub Prints : {World : Type 0} → (World → ℕ) → (Text → World → World) → Type 0
Prints {World} count print = (line : Text) (w : World) → count (print line w) ≡ count w

module _ (n : Numbers) {World Link : Type 0} (count : World → ℕ) where
  -- No program is attached, no link is held, and the statics are given ones.
  unfoldable pub HasStatics : Statics n → MetricsCollector n World Link → Type 0
  HasStatics statics c = (count c.world ≡ 0) × (c.links ≡ none) × (c.statics ≡ statics)

  module _ (influx : Influx World) (apart : IsApart influx count) where
    open influx use {Response, since_epoch, send, is_success, text}

    write_lines-Keeps :
        (statics : Statics n) (target : Target) (body : Text)
        → Keeps (HasStatics statics) (write_lines n {Link = Link} influx target body)
    unfolding write_lines outside check_status refused HasStatics
    write_lines-Keeps statics target body =
        bind-Keeps (HasStatics statics) _ _
          (λ c h. (apart.sent (write_request target body) c.world ∙ h.0, h.1, h.2))
          (λ resp. check resp (is_success resp))
      where
        check :
            (resp : Response) (b : Bool)
            → Keeps
                (HasStatics statics)
                (if b then pure tt else refused n {Link = Link} influx resp)
        check resp true c h = h
        check resp false c h = (apart.answered resp c.world ∙ h.0, h.1, h.2)

    -- Where the attached programs are those of which the collector holds links, and once `push_all`
    -- has detached them and read the clock: whether the push returns, fails or panics, no program is
    -- attached afterwards and no link is held, the throughput samples are still there, and the
    -- volumes of the system calls are gone.
    pub push_all-HasStatics :
        (detach : Link → World → World) (target : Target) (job : Text) (tags : List (Text × Text))
        (c : MetricsCollector n World Link) (timestamp : ℕ) (world : World)
        → Detaches detach count
        → count c.world ≡ held c.links
        → since_epoch (drop_links detach c.links c.world) ≡ (some timestamp, world)
        → HasStatics
            (record { throughput_samples = c.statics.throughput_samples; syscall_volumes = [] })
            (push_all n influx detach target job tags c).1
    unfolding push_all HasStatics collect_line_protocol
    push_all-HasStatics detach target job tags c timestamp world detached attached e =
        let collected =
          collect_line_protocol n (build_tag_str (insert_tag (codes "job") job tags)) timestamp
            c.statics in
        let before = drop_links detach c.links c.world in
        let none_attached : count world ≡ 0 =
          rw e at (apart.clocked before)
          ∙ drop_links-count detach count detached c.links c.world attached in
        rw e (
          continue-Keeps (HasStatics collected.1) collected.0 (write_lines n influx target) _
            (write_lines-Keeps collected.1 target) (none_attached, refl, refl))

    -- With nothing recorded, `push_all` is an error, and nothing is sent.
    push_all-nothing :
        (detach : Link → World → World) (target : Target) (job : Text) (tags : List (Text × Text))
        (links : Option (List Link)) (w : World) (timestamp : ℕ) (world : World)
        → since_epoch (drop_links detach links w) ≡ (some timestamp, world)
        → push_all n influx detach target job tags (record {
          links = links;
          statics = record { throughput_samples = []; syscall_volumes = [] };
          world = w;
        })
          ≡ (
            err "No metrics to push",
            record {
              links = none;
              statics = record { throughput_samples = []; syscall_volumes = [] };
              world = world;
            },
          )
    unfolding push_all collect_line_protocol io_lines
    push_all-nothing detach target job tags links w timestamp world e = rw e refl

  module _ (print : Text → World → World) (printed : Prints count print) (statics : Statics n) where
    report_throughput-Keeps :
        (samples : List n.Float)
        → Keeps (HasStatics statics) (report_throughput n {Link = Link} print samples)
    unfolding report_throughput print_line HasStatics
    report_throughput-Keeps [] c h = h
    report_throughput-Keeps (x ∷ samples) c h = (printed _ c.world ∙ h.0, h.1, h.2)

    report_volumes-Keeps :
        (volumes : Volumes)
        → Keeps (HasStatics statics) (report_volumes n {Link = Link} print volumes)
    unfolding report_volumes print_line HasStatics
    report_volumes-Keeps [] = λ c h. h
    report_volumes-Keeps ((syscall, vs) ∷ volumes) =
        bind-Keeps (HasStatics statics) (lift (sum_from n 0 vs)) _ (λ c h. h)
          (λ total c h. report_volumes-Keeps volumes _ (printed _ c.world ∙ h.0, h.1, h.2))

  -- A report leaves the statics as they are, and where the attached programs are those of which the
  -- collector holds links, no program is attached afterwards: whether it returns or panics.
  report-HasStatics :
      (print : Text → World → World) (detach : Link → World → World)
      (c : MetricsCollector n World Link)
      → Prints count print
      → Detaches detach count
      → count c.world ≡ held c.links
      → HasStatics c.statics (report n print detach c).1
  unfolding report take_links report_statics HasStatics
  report-HasStatics print detach c printed detached attached =
      bind-Keeps (HasStatics c.statics) (report_throughput n print c.statics.throughput_samples)
        (λ _. report_volumes n print c.statics.syscall_volumes)
        (report_throughput-Keeps print printed c.statics c.statics.throughput_samples)
        (λ _. report_volumes-Keeps print printed c.statics c.statics.syscall_volumes)
        (record { links = none; statics = c.statics; world = drop_links detach c.links c.world })
        (drop_links-count detach count detached c.links c.world attached, refl, refl)
