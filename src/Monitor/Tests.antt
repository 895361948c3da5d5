-- ===== src/Monitor/Tests.antt =====
-- Runs of the monitor on small inputs.
use nesquic.Prelude.{ℕ, ◌∷◌, IsFaultless, List, Returns, [], some, none, ok, ◌+◌, ◌≡◌, false, refl}
use nesquic.Text.{Text, codes, trim, split_terminator, split}
use nesquic.Labels.{parse_labels, parse_label, extend, collect}
use nesquic.Metrics.Lines.{Numbers}
use nesquic.Metrics.Push.{MetricsCollector, Influx, HttpRequest}
use nesquic.Monitor.{main}
use nesquic.Monitor.Options.{Cli, labels, core_of, get_core_id}
use nesquic.Monitor.Labelled.{lookup, HasDistinctKeys, own_labels, labels-extend}
use nesquic.Monitor.Ending.{main-IsFaultless}

-- A job with one label given twice, on the second core.
abbrev cli : Cli
cli = record {
  job = some (codes "j");
  labels = some (codes "a: 1" ∷ codes "a:2" ∷ []);
  cpu = some 1;
}

abbrev pairs : List (Text × Text)
pairs = (codes "a", codes "1") ∷ (codes "a", codes "2") ∷ []

labels-extend_example : Returns (labels (codes "info") (codes "0.1") cli) (λ entries.
    HasDistinctKeys entries
    × ((key : Text)
        → lookup entries key
          ≡ extend (own_labels (codes "info") (codes "0.1")) (collect pairs) key))
unfolding parse_labels parse_label split_terminator trim split
labels-extend_example = labels-extend (codes "info") (codes "0.1") cli pairs refl

-- Floats and their printing are of no interest here.
abbrev no_numbers : Numbers
no_numbers = record {
  Float = Unit {0};
  sum = λ _. tt;
  divide = λ a b. tt;
  of_ℕ = λ k. tt;
  show = λ x. [];
  show_ℕ = λ k. [];
  show_rounded = λ x. [];
  add = λ a b. some (a + b);
  in_kb = λ b. tt;
}

-- A database that does not answer.
abbrev unreachable : Influx (List HttpRequest)
unreachable = record {
  Response = Unit {0};
  since_epoch = λ w. (some 9, w);
  send = λ request w. (none, request ∷ w);
  is_success = λ _. false;
  text = λ _ w. (none, w);
}

abbrev empty : MetricsCollector no_numbers (List HttpRequest) ℕ
empty = record {
  links = none;
  statics = record { throughput_samples = tt ∷ []; syscall_volumes = [] };
  world = [];
}

main-IsFaultless_example :
    IsFaultless
      (main no_numbers unreachable
        (λ line w. w)
        (λ link w. w)
        (λ (core : ℕ) w. w)
        (λ c. (ok tt, c))
        (λ c. (ok tt, c))
        (codes "info")
        (codes "0.1")
        cli
        (some (4 ∷ 7 ∷ []))
        (λ name. some name)
        empty).0
unfolding core_of get_core_id
main-IsFaultless_example =
    main-IsFaultless no_numbers unreachable (λ line w. w) (λ link w. w) (λ (core : ℕ) w. w)
      (λ c. (ok tt, c)) (λ c. (ok tt, c)) (codes "info") (codes "0.1") cli (some (4 ∷ 7 ∷ []))
      (λ name. some name) (some 7) empty refl (λ c. tt) (λ c. tt)
