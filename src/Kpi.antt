-- ===== src/Kpi.antt =====
-- pkg/synchronizer/kpi.go: the Prometheus metrics that the package registers. Of these,
-- `SynchronizeDevice` uses the counter and the histogram of synchronizations; the counter is
-- `kpi_total` of `World`, by the label values of its increments.
use fabric_adapter.Base.{
  ◌≡◌, refl, Bool, true, ◌&&◌, not, List, [], ◌∷◌, map, Text, codes, text_eqb, length, ℕ,
}
use fabric_adapter.Sorting.Keys.{listed}

pub data MetricKind : Type 0 where
  counter gauge histogram : MetricKind

-- the options and the label names of a `NewCounterVec`, `NewGaugeVec` or `NewHistogramVec`
pub record Metric : Type 0 where
  pub kind : MetricKind
  pub name : Text
  pub help : Text
  pub labels : List Text

abbrev pub kpi_synchronization_total : Metric
kpi_synchronization_total = record {
  kind = counter;
  name = codes "synchronization_total";
  help = codes "The total number of synchronizations";
  labels = codes "enterprise" ∷ [];
}

abbrev pub kpi_synchronization_duration : Metric
kpi_synchronization_duration = record {
  kind = histogram;
  name = codes "synchronization_duration";
  help = codes "The duration of synchronizations";
  labels = codes "enterprise" ∷ [];
}

abbrev pub kpi_synchronization_resource_total : Metric
kpi_synchronization_resource_total = record {
  kind = gauge;
  name = codes "synchronization_resource_total";
  help = codes "The total number of resources synchronized";
  labels = codes "enterprise" ∷ codes "kind" ∷ [];
}

abbrev pub kpi_synchronization_failed_total : Metric
kpi_synchronization_failed_total = record {
  kind = counter;
  name = codes "synchronization_failed_total";
  help = codes "The total number of failed synchronizations";
  labels = codes "enterprise" ∷ codes "kind" ∷ codes "destination" ∷ [];
}

-- in the order of their registration
abbrev registered : List Metric
registered =
    kpi_synchronization_total ∷ kpi_synchronization_duration ∷ kpi_synchronization_resource_total
    ∷ kpi_synchronization_failed_total ∷ []

all_differ : List Text → Bool
all_differ [] = true
all_differ (n ∷ ns) = not (listed n ns) && all_differ ns

-- `promauto` panics on a name that is registered twice; and `WithLabelValues` of the two metrics
-- that are used is given one value, the fabric's id.
registration_succeeds :
    (all_differ (map (λ (m : Metric). m.name) registered) ≡ true)
    × (◌≡◌ {A = ℕ} (length kpi_synchronization_total.labels) 1)
    × (◌≡◌ {A = ℕ} (length kpi_synchronization_duration.labels) 1)
unfolding all_differ listed text_eqb
registration_succeeds = (refl, refl, refl)
