-- ===== src/Service/Tests.antt =====
-- The conversion of services on an example.
use camblet.Base.{◌≡◌, [], ◌∷◌}
use camblet.Base.Assoc.{lookup}
use camblet.Service.Convert.{convert_entries}
use camblet.Service.Samples.{net, services}
use camblet.Service.Convert.Merged.{gather, service_pairs, convert_entries-gathers}

convert_entries-gathers_example :
    lookup "h:80" (convert_entries net services ("prod" ∷ []))
    ≡ gather "h:80" (service_pairs net ("prod" ∷ []) services)
convert_entries-gathers_example = convert_entries-gathers net ("prod" ∷ []) services "h:80"
