-- ===== src/Metrics/Push.antt =====
-- `push_all` and `report` of nesquic/src/metrics/mod.rs. The clock, the HTTP client, the standard
-- output and the detaching of a program are parameters.
pub mod Effects
use nesquic.Prelude.{ℕ, List, Option, err, if◌then◌else◌, ok, ◌++◌, Bool, none, ◌∷◌, [], length}
use nesquic.Prelude.Tasks.{Task, ◌>>=◌, pure, fail, lift, or_fail}
use nesquic.Text.{Text, codes, eq_text}
use nesquic.Metrics.Collector.{drop_links}
use nesquic.Metrics.Lines.{Numbers, Statics, sum_from, mean, collect_line_protocol}
use nesquic.Metrics.Tags.{build_tag_str}
use nesquic.Metrics.Volumes.{Volumes}

-- A POST request with a body.
pub record HttpRequest : Type 0 where
  pub url : Text
  pub authorization : Text
  pub content_type : Text
  pub body : Text

pub record Influx (World : Type 0) : Type 1 where
  pub Response : Type 0
  pub since_epoch : World → Option ℕ × World
  pub send : HttpRequest → World → Option Response × World
  pub is_success : Response → Bool
  pub text : Response → World → Option Text × World

-- The entries of the map of the tags with one more, or with the value of its key replaced.
unfoldable pub insert_tag : Text → Text → List (Text × Text) → List (Text × Text)
insert_tag k v [] = (k, v) ∷ []
insert_tag k v ((key, value) ∷ tags) =
    let rest = insert_tag k v tags in if eq_text key k then (key, v) ∷ tags else (key, value) ∷ rest

pub record Target : Type 0 where
  pub url : Text
  pub token : Text
  pub org : Text
  pub bucket : Text

abbrev write_request : Target → Text → HttpRequest
write_request target body = record {
  url =
      target.url
      ++ (codes "/api/v2/write?org="
          ++ (target.org ++ (codes "&bucket=" ++ (target.bucket ++ codes "&precision=ns"))));
  authorization = codes "Token " ++ target.token;
  content_type = codes "text/plain; charset=utf-8";
  body = body;
}

-- The collector with the statics of its module, and what is outside.
pub record MetricsCollector (n : Numbers) (World Link : Type 0) : Type 0 where
  pub links : Option (List Link)
  pub statics : Statics n
  pub world : World

module _ (n : Numbers) {World Link : Type 0} where
  -- `self.links.take()`: the links are taken out and dropped.
  take_links : (Link → World → World) → Task (MetricsCollector n World Link) (Unit {0})
  take_links detach c = (
    ok tt,
    record { links = none; statics = c.statics; world = drop_links detach c.links c.world },
  )

  module _ (influx : Influx World) where
    open influx use {Response, since_epoch, send, is_success, text}

    outside :
        {A : Type 0}
        → (World → Option A × World)
        → MetricsCollector n World Link
        → Option A × MetricsCollector n World Link
    outside call c =
        let (r, world) = call c.world in
        (r, record { links = c.links; statics = c.statics; world = world })

    collect_lines : Text → ℕ → Task (MetricsCollector n World Link) Text
    collect_lines tag_str timestamp c =
        let (r, statics) = collect_line_protocol n tag_str timestamp c.statics in
        (r, record { links = c.links; statics = statics; world = c.world })

    -- The body of a refusal is read for the message only.
    refused : Response → Task (MetricsCollector n World Link) (Unit {0})
    unfolding outside
    refused resp c = (err "InfluxDB write failed", (outside (text resp) c).1)

    check_status : Response → Task (MetricsCollector n World Link) (Unit {0})
    unfolding refused
    check_status resp = if is_success resp then pure tt else refused resp

    write_lines : Target → Text → Task (MetricsCollector n World Link) (Unit {0})
    unfolding outside check_status
    write_lines target body = do
      resp ← or_fail (outside (send (write_request target body))) "HTTP request failed"
      check_status resp

    unfoldable pub push_all :
        (Link → World → World)
        → Target
        → Text
        → List (Text × Text)
        → Task (MetricsCollector n World Link) (Unit {0})
    unfolding take_links outside collect_lines write_lines
    push_all detach target job tags = do
      _ ← take_links detach
      timestamp ← or_fail (outside since_epoch) "second time provided was later than self"
      body ← collect_lines (build_tag_str (insert_tag (codes "job") job tags)) timestamp
      write_lines target body

  module _ (print : Text → World → World) where
    open n use {Float, show_rounded, show_ℕ, in_kb}

    print_line : Text → Task (MetricsCollector n World Link) (Unit {0})
    print_line line c =
        (ok tt, record { links = c.links; statics = c.statics; world = print line c.world })

    report_throughput : List Float → Task (MetricsCollector n World Link) (Unit {0})
    unfolding print_line
    report_throughput [] = pure tt
    report_throughput (x ∷ samples) =
        print_line (codes "throughput: " ++ (show_rounded (mean n (x ∷ samples)) ++ codes " Mbps"))

    report_volumes : Volumes → Task (MetricsCollector n World Link) (Unit {0})
    unfolding print_line
    report_volumes [] = pure tt
    report_volumes ((syscall, vs) ∷ volumes) = do
      total ← lift (sum_from n 0 vs)
      _ ← print_line (
          syscall
          ++ (codes ": count="
              ++ (show_ℕ (length vs) ++ (codes ", volume_sum=" ++ show_rounded (in_kb total)))))
      report_volumes volumes

    report_statics : Statics n → Task (MetricsCollector n World Link) (Unit {0})
    unfolding report_throughput report_volumes
    report_statics statics = do
      _ ← report_throughput statics.throughput_samples
      report_volumes statics.syscall_volumes

    unfoldable pub report : (Link → World → World) → Task (MetricsCollector n World Link) (Unit {0})
    unfolding take_links report_statics
    report detach c = (take_links detach >>= (λ _. report_statics c.statics)) c
