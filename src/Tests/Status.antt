-- ===== src/Tests/Status.antt =====
-- The theorems on the status of a site, with two events that the cluster lists oldest first.
use mathlib.Core.List.{Mem, mem-cons_self}
use mathlib.Core.List.Perm
use wordpress_manager_operat.Prelude.{
  ℕ, String, Bool, arith, ◌≡◌, refl, true, false, none, some, List, [], ◌∷◌, nat_eq, ok,
  if◌then◌else◌,
}
use wordpress_manager_operat.Apiserver.Sites.{Server, fetch}
use wordpress_manager_operat.Apiserver.Status.{
  EventDto, SiteStatusDto, Event, Format, Diagnostics, Stuck, Pod, site_events, involves, event_dto,
  newer, summary, get_site_status, pod_status,
}
use wordpress_manager_operat.Apiserver.Status.Newest.{
  IsNewest, IsMonotone, get_site_status-IsNewest,
}
use wordpress_manager_operat.Apiserver.Status.Siblings.{get_site_status-other}
use wordpress_manager_operat.Apiserver.Status.Reasons.{pod_status-first}
use wordpress_manager_operat.Tests.Sites.{blog}
use wordpress_manager_operat.Tests.Stores.{Slot, store}

abbrev pub format : Format
format = record {
  decimal = λ n. if nat_eq n 0 then "0" else "many";
  rfc3339 = λ n. if nat_eq n 5 then "2024-01-01T00:00:05Z" else "2024-01-01T00:00:09Z";
}

abbrev event : String → ℕ → Event
event name t = record {
  kind = "Warning";
  reason = "BackOff";
  message = "restarting";
  count = 3;
  object_kind = "Pod";
  object_name = name;
  last_timestamp = t;
  event_time = 0;
}

abbrev events : List Event
events = event "my-blog-0" 5 ∷ event "other" 5 ∷ event "my-blog" 9 ∷ []

abbrev pub diagnostics : Diagnostics Slot
diagnostics = record { list_pods = λ n l v w. (ok [], w); list_events = λ n w. (ok events, w) }

-- A sort of two events of which the second is less.
abbrev pub swapped : (EventDto → EventDto → Bool) → List EventDto → List EventDto
swapped less (a ∷ b ∷ []) = b ∷ a ∷ []
swapped less es = es

abbrev server : Server Slot
server = record { namespace = "sites"; db_host = "mysql"; db_port = "3306"; reconcile = none }

abbrev shown : SiteStatusDto
shown = record (summary store server diagnostics format swapped blog) {
  events = swapped newer (site_events format "my-blog" events);
}

monotone : IsMonotone format events
monotone = (
  (λ h. absurd (omega arith), (λ h. absurd (omega arith), (λ h. refl, tt))),
  (
    (λ h. absurd (omega arith), (λ h. absurd (omega arith), (λ h. refl, tt))),
    ((λ h. absurd (omega arith), (λ h. absurd (omega arith), (λ h. absurd (omega arith), tt))), tt),
  ),
)

get_site_status-IsNewest_example : IsNewest format events "my-blog" shown.events
unfolding get_site_status fetch site_events involves event_dto newer
get_site_status-IsNewest_example =
    get_site_status-IsNewest store server diagnostics format swapped "my-blog" blog events shown 200
      none none monotone (record { perm = Perm.swap _ _ []; in_order = ((refl, tt), (tt, tt)) })
      refl refl refl

abbrev sibling_diagnostics : Diagnostics Slot
sibling_diagnostics = record {
  list_pods = λ n l v w. (ok [], w);
  list_events = λ n w. (ok (event "my-blog-shop" 5 ∷ []), w);
}

abbrev sibling_shown : SiteStatusDto
sibling_shown = record (summary store server sibling_diagnostics format swapped blog) {
  events = site_events format "my-blog" (event "my-blog-shop" 5 ∷ []);
}

get_site_status-other_example : Mem (event_dto format (event "my-blog-shop" 5)) sibling_shown.events
unfolding get_site_status fetch site_events involves event_dto newer
get_site_status-other_example =
    get_site_status-other store server sibling_diagnostics format swapped "my-blog" "shop" blog
      (record blog { meta = record (blog.meta) { name = "my-blog-shop" } }) (event "my-blog-shop" 5)
      (event "my-blog-shop" 5 ∷ []) sibling_shown 200 none none refl refl mem-cons_self
      (record { perm = Perm.refl _; in_order = (tt, tt) }) refl refl refl (omega arith)

abbrev back_off : Stuck
back_off = record { reason = "CrashLoopBackOff"; message = "back-off 40s" }

abbrev pod : Pod
pod = record {
  name = "my-blog-0";
  created = 5;
  containers = 2;
  node = "a";
  phase = "Running";
  reason = "Evicted";
  conditions = [];
  statuses =
      record { ready = true; restart_count = 0; waiting = none; terminated = none }
      ∷ record { ready = false; restart_count = 4; waiting = some back_off; terminated = none }
      ∷ [];
}

pod_status-first_example :
    ((pod_status format pod).reason ≡ "CrashLoopBackOff")
    × ((pod_status format pod).message ≡ "back-off 40s")
pod_status-first_example = pod_status-first format pod back_off refl
