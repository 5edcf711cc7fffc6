-- ===== src/Apiserver/Status.antt =====
-- internal/apiserver/status.go: why a site is not ready. The printing of numbers and times, and
-- sort.Slice, which is given the comparison, are parameters.
pub mod Newest
pub mod Siblings
pub mod Scanning
pub mod Reasons
use Prim.Native.Nat.{Ordering}
use Prim.Native.String
use Prim.Native.String.{◌++◌}
use wordpress_manager_operat.Prelude.{
  ℕ, String, Bool, true, false, ◌&&◌, ◌||◌, ◌==◌, ◌+◌, ◌%◌, ◌^◌, Option, none, some, List, [], ◌∷◌,
  map, take, nat_eq, Result, ok, err, Exec, if◌then◌else◌,
}
use wordpress_manager_operat.Text.{is_empty, strip_prefix}
use wordpress_manager_operat.Api.{WordPressSite, Condition}
use wordpress_manager_operat.Apiserver.Interface.{Client, json, Handler, not_found_or_500}
use wordpress_manager_operat.Apiserver.Sites.{Server, fetch, latest_condition_message}

pub record ConditionDto : Type 0 where
  pub kind : String
  pub status : String
  pub reason : String
  pub message : String
  pub last_transition : String

pub record PodStatusDto : Type 0 where
  pub name : String
  pub phase : String
  pub ready : String
  pub reason : String
  pub message : String
  pub restarts : ℕ
  pub node : String
  pub created : String

pub record EventDto : Type 0 where
  pub kind : String
  pub reason : String
  pub message : String
  pub count : ℕ
  pub object : String
  pub last_seen : String

pub record SiteStatusDto : Type 0 where
  pub phase : String
  pub message : String
  pub conditions : List ConditionDto
  pub pods : List PodStatusDto
  pub events : List EventDto

-- ContainerStateWaiting or ContainerStateTerminated
pub record Stuck : Type 0 where
  pub reason : String
  pub message : String

pub record ContainerStatus : Type 0 where
  pub ready : Bool
  pub restart_count : ℕ
  pub waiting : Option Stuck
  pub terminated : Option Stuck

pub record PodCondition : Type 0 where
  pub kind : String
  pub status : String
  pub reason : String
  pub message : String

-- corev1.Pod with the number of its containers; a time is a number of seconds, 0 where it is zero.
pub record Pod : Type 0 where
  pub name : String
  pub created : ℕ
  pub containers : ℕ
  pub node : String
  pub phase : String
  pub reason : String
  pub conditions : List PodCondition
  pub statuses : List ContainerStatus

pub record Event : Type 0 where
  pub kind : String
  pub reason : String
  pub message : String
  pub count : ℕ
  pub object_kind : String
  pub object_name : String
  pub last_timestamp : ℕ
  pub event_time : ℕ

-- fmt's %d, and the layout time.RFC3339 of a time.
pub record Format : Type 0 where
  pub decimal : ℕ → String
  pub rfc3339 : ℕ → String

-- The variables of podStatus that its first loop writes; `restarts` is an int32.
pub record Scan : Type 0 where
  pub ready : ℕ
  pub restarts : ℕ
  pub reason : String
  pub message : String

abbrev pub with_reason : Scan → Stuck → Scan
with_reason s x = record s { reason = x.reason; message = x.message }

-- The two tests of the loop, where no reason is known yet.
abbrev pub explain : Option Stuck → Option Stuck → Scan → Scan
explain (some x) t s = with_reason s x
explain none (some x) s = if is_empty x.reason then s else with_reason s x
explain none none s = s

unfoldable pub scan_status : Scan → ContainerStatus → Scan
scan_status s c =
    let counted = record s {
      ready = if c.ready then s.ready + 1 else s.ready;
      restarts = (s.restarts + c.restart_count) % 2 ^ 32;
    } in
    if is_empty s.reason then explain c.waiting c.terminated counted else counted

unfoldable pub scan_statuses : Scan → List ContainerStatus → Scan
scan_statuses s [] = s
scan_statuses s (c ∷ cs) = scan_statuses (scan_status s c) cs

unfoldable pub scan_condition : Scan → PodCondition → Scan
scan_condition s c =
    if (c.kind == "PodScheduled") && (c.status == "False")
    then record s { reason = c.reason; message = c.message }
    else s

-- The loop over the conditions of a pending pod: the last that fits is taken.
unfoldable pub scan_conditions : Scan → List PodCondition → Scan
scan_conditions s [] = s
scan_conditions s (c ∷ cs) = scan_conditions (scan_condition s c) cs

abbrev pub time_text : (ℕ → String) → ℕ → String
time_text layout t = if nat_eq t 0 then "" else layout t

abbrev pub scan_pending : Scan → Pod → Scan
scan_pending s p =
    if is_empty s.reason && (p.phase == "Pending") then scan_conditions s p.conditions else s

abbrev pub with_own : Scan → Pod → Scan
with_own s p = if is_empty s.reason then record s { reason = p.reason } else s

unfoldable pub scan_pod : Pod → Scan
unfolding scan_statuses scan_status scan_conditions scan_condition
scan_pod p =
    let s =
      scan_statuses (record { ready = 0; restarts = 0; reason = ""; message = "" }) p.statuses in
    with_own (scan_pending s p) p

unfoldable pub pod_status : Format → Pod → PodStatusDto
unfolding scan_pod
pod_status f p =
    let s = scan_pod p in
    record {
      name = p.name;
      phase = p.phase;
      ready = f.decimal s.ready ++ "/" ++ f.decimal p.containers;
      reason = s.reason;
      message = s.message;
      restarts = s.restarts;
      node = p.node;
      created = time_text f.rfc3339 p.created;
    }

unfoldable pub event_dto : Format → Event → EventDto
event_dto f e = record {
  kind = e.kind;
  reason = e.reason;
  message = e.message;
  count = if nat_eq e.count 0 then 1 else e.count;
  object = e.object_kind ++ "/" ++ e.object_name;
  last_seen =
      time_text f.rfc3339 (if nat_eq e.last_timestamp 0 then e.event_time else e.last_timestamp);
}

unfoldable pub condition_dto : Format → Condition → ConditionDto
condition_dto f c = record {
  kind = c.kind;
  status = c.status;
  reason = c.reason;
  message = c.message;
  last_transition = time_text f.rfc3339 c.last_transition_time;
}

abbrev pub is_some : Option String → Bool
is_some none = false
is_some (some s) = true

-- Whether an event is of an object of the site.
unfoldable pub involves : String → Event → Bool
unfolding strip_prefix
involves site e = (e.object_name == site) || is_some (strip_prefix (site ++ "-") e.object_name)

-- The loop over the events.
unfoldable pub site_events : Format → String → List Event → List EventDto
unfolding involves event_dto
site_events f site [] = []
site_events f site (e ∷ es) =
    let rest = site_events f site es in if involves site e then event_dto f e ∷ rest else rest

-- `a > b` of strings
abbrev pub gt_string : String → String → Bool
gt_string a b = elim (String.compare a b) [ Ordering.gt ↦ true | _ ↦ false ]

-- The comparison that getSiteStatus sorts by.
unfoldable pub newer : EventDto → EventDto → Bool
newer a b = gt_string a.last_seen b.last_seen

-- The two further lists of the client: the pods of a namespace that have a label with a value, and the
-- events of a namespace.
pub record Diagnostics (W : Type 0) : Type 0 where
  pub list_pods : String → String → String → Exec W (List Pod)
  pub list_events : String → Exec W (List Event)

module _ {W : Type 0} (c : Client W) (s : Server W) (d : Diagnostics W) (f : Format)
    (sort : (EventDto → EventDto → Bool) → List EventDto → List EventDto) where
  abbrev pub with_events : SiteStatusDto → String → Result (List Event) → SiteStatusDto
  with_events out site (err e) = out
  with_events out site (ok es) = record out {
    events = take 25 (sort newer (site_events f site es));
  }

  abbrev pub with_pods : SiteStatusDto → Result (List Pod) → SiteStatusDto
  with_pods out (err e) = out
  with_pods out (ok ps) = record out { pods = map (pod_status f) ps }

  abbrev pub summary : WordPressSite → SiteStatusDto
  summary site = record {
    phase = site.status.phase;
    message = latest_condition_message site;
    conditions = map (condition_dto f) site.status.conditions;
    pods = [];
    events = [];
  }

  abbrev pub after_site : Result WordPressSite → Handler W SiteStatusDto
  after_site (err e) w = (not_found_or_500 e, w)
  after_site (ok site) w =
      let (pods, w1) = d.list_pods s.namespace "wp.benji.dev/site" site.meta.name w in
      let (events, w2) = d.list_events s.namespace w1 in
      (json 200 (with_events (with_pods (summary site) pods) site.meta.name events), w2)

  unfoldable pub get_site_status : String → Handler W SiteStatusDto
  unfolding fetch site_events pod_status condition_dto latest_condition_message
  get_site_status name w = after_site (fetch c s name w).0 (fetch c s name w).1
