-- ===== src/Metrics/Tests.antt =====
-- The tags, the events, the push and the attaching on small inputs.
use nesquic.Metrics.Volumes.{
  EventIo, Volumes, process_all, process, process_event, syscalls, push_volume,
}
use nesquic.Metrics.Lines.{Numbers}
use nesquic.Metrics.Push.{HttpRequest, Influx, Target, MetricsCollector, push_all}
use nesquic.Metrics.Push.Effects.{HasStatics, IsApart, push_all-HasStatics}
use nesquic.Metrics.Collector.{Bpf, monitor_io, drop_links}
use nesquic.Metrics.Collector.Attached.{Counts, monitor_io-links}
use nesquic.Text.{codes, eq_text}
use nesquic.Prelude.{
  ℕ, List, [], ◌∷◌, ◌≡◌, refl, Bool, Option, none, ok, some, ◌+◌, String, err, if◌then◌else◌, true,
  ltb, suc, ◌⊎◌, length, sym, ◌-◌, ap, false,
}
use nesquic.Metrics.Tags.Escapes.{unescape, unescape-escape_tag}
use mathlib.Core.List.Perm
use mathlib.Core.List.{filter_map}
use nesquic.Metrics.Tags.{escape_tag, replace, build_tag_str}
use nesquic.Metrics.Sort.{sort}
use nesquic.Metrics.Tags.Order.{build_tag_str-Perm}

-- `a,b` and a backslash
abbrev sample : List ℕ
sample = 97 ∷ 44 ∷ 98 ∷ 92 ∷ []

escape_sample : escape_tag sample ≡ 97 ∷ 92 ∷ 44 ∷ 98 ∷ 92 ∷ []
unfolding escape_tag replace
escape_sample = refl

unescape-escape_tag_example : unescape (escape_tag sample) ≡ sample
unescape-escape_tag_example = unescape-escape_tag sample

-- The tags a=1, b=2 and one with no value, in two orders.
abbrev tags : List (List ℕ × List ℕ)
tags = (97 ∷ [], 49 ∷ []) ∷ (98 ∷ [], 50 ∷ []) ∷ (99 ∷ [], []) ∷ []

abbrev swapped : List (List ℕ × List ℕ)
swapped = (98 ∷ [], 50 ∷ []) ∷ (97 ∷ [], 49 ∷ []) ∷ (99 ∷ [], []) ∷ []

-- `,a=1,b=2`
tags_text : build_tag_str swapped ≡ 44 ∷ 97 ∷ 61 ∷ 49 ∷ 44 ∷ 98 ∷ 61 ∷ 50 ∷ []
unfolding build_tag_str sort escape_tag replace filter_map
tags_text = refl

build_tag_str-Perm_example : build_tag_str tags ≡ build_tag_str swapped
build_tag_str-Perm_example = build_tag_str-Perm (Perm.swap _ _ _)

-- An event of two numbers: a system call and a length.
abbrev two_numbers : List ℕ → Option EventIo
two_numbers (s ∷ l ∷ []) = some (record { syscall = s; len = l })
two_numbers _ = none

-- A write of 100 bytes, something else, a read of 7 and a write of 5.
abbrev events : List (List ℕ)
events = (0 ∷ 100 ∷ []) ∷ [] ∷ (6 ∷ 7 ∷ []) ∷ (0 ∷ 5 ∷ []) ∷ []

abbrev recorded : Volumes
recorded = (codes "write", 100 ∷ 5 ∷ []) ∷ (codes "read", 7 ∷ []) ∷ []

process_events : process_all two_numbers events [] ≡ ok recorded
unfolding process_all process process_event syscalls push_volume eq_text
process_events = refl

abbrev sum_all : List ℕ → ℕ
sum_all [] = 0
sum_all (x ∷ xs) = x + sum_all xs

-- Whole numbers for floats, written as one character each.
abbrev whole : Numbers
whole = record {
  Float = ℕ;
  sum = sum_all;
  divide = ◌+◌;
  of_ℕ = λ k. k;
  show = λ x. x ∷ [];
  show_ℕ = λ k. k ∷ [];
  show_rounded = λ x. x ∷ [];
  add = λ a b. some (a + b);
  in_kb = λ b. b;
}

-- A database that keeps the requests and refuses them all, at the time 9, beside the number of the
-- programs that are attached.
abbrev refusing : Influx (List HttpRequest × ℕ)
refusing = record {
  Response = Unit {0};
  since_epoch = λ w. (some 9, w);
  send = λ request (requests, attached). (some tt, (request ∷ requests, attached));
  is_success = λ _. false;
  text = λ _ w. (none, w);
}

refusing-IsApart : IsApart refusing (λ (requests, attached). attached)
refusing-IsApart = record {
  clocked = λ w. refl;
  sent = λ request w. refl;
  answered = λ resp w. refl;
}

abbrev detach : ℕ → List HttpRequest × ℕ → List HttpRequest × ℕ
detach link (requests, attached) = (requests, attached - 1)

abbrev local : Target
local = record { url = codes "u"; token = codes "t"; org = codes "o"; bucket = codes "b" }

-- Three programs are attached.
abbrev filled : MetricsCollector whole (List HttpRequest × ℕ) ℕ
filled = record {
  links = some (1 ∷ 2 ∷ 3 ∷ []);
  statics = record { throughput_samples = 3 ∷ []; syscall_volumes = recorded };
  world = ([], 3);
}

push_all-HasStatics_example :
    HasStatics whole
      (λ (requests, attached). attached)
      (record { throughput_samples = 3 ∷ []; syscall_volumes = [] })
      (push_all whole refusing detach local (codes "j") [] filled).1
unfolding drop_links
push_all-HasStatics_example =
    push_all-HasStatics whole (λ (requests, attached). attached) refusing refusing-IsApart detach
      local (codes "j") [] filled 9 ([], 0) (λ link w. refl) refl refl

-- Only the number of the attached programs is kept, and at most four programs can be attached.
abbrev up_to : ℕ → Bpf ℕ ℕ
up_to limit = record {
  OpenSkel = Unit {0};
  Skel = Unit {0};
  RingBuffer = Unit {0};
  process_id = λ w. 1;
  open_skel = λ w. (some tt, w);
  set_pid = λ pid o. some o;
  load = λ o w. (some tt, w);
  attach = λ program skel w. if ltb w limit then (some w, suc w) else (none, w);
  detach = λ link w. w - 1;
  add_events = λ skel w. (some tt, w);
  build = λ w. (some tt, w);
  spawn = λ r w. w;
}

up_to-Counts : (limit : ℕ) → Counts (up_to limit) (λ w. w)
up_to-Counts limit = record {
  attached = λ program skel w h. go w (ltb w limit) h;
  refused = λ program skel w w' h. same w w' (ltb w limit) h;
  detached = λ link w. refl;
  added = λ skel w. refl;
  built = λ w. refl;
  spawned = λ r w. refl;
}
  where
    go :
        (w : ℕ) (b : Bool) {link w' : ℕ}
        → ◌≡◌ {A = Option ℕ × ℕ} (if b then (some w, suc w) else (none, w)) (some link, w')
        → w' ≡ suc w
    go w true h = sym (ap (λ p. p.1) h)
    go w false h = cc

    same :
        (w w' : ℕ) (b : Bool)
        → ◌≡◌ {A = Option ℕ × ℕ} (if b then (some w, suc w) else (none, w)) (none, w')
        → w' ≡ w
    same w w' true h = cc
    same w w' false h = sym (ap (λ p. p.1) h)

monitor_io-links_example :
    let r = monitor_io (up_to 4) tt none 0 in
    ((e : String) × (r.0.0 ≡ err e) × (r.0.1 ≡ none) × (r.1 ≡ 0))
    ⊎ ((links : List ℕ) × (r.0.1 ≡ some links) × (length links ≡ 10) × (r.1 ≡ 10))
monitor_io-links_example = monitor_io-links (up_to 4) (up_to-Counts 4) tt 0 refl
