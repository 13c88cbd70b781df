-- ===== src/Engine/Link/Laws.antt =====
-- Link types and their numbers.
use marlinspike_dpi.Prelude.{◌≡◌, refl, some}
use marlinspike_dpi.Engine.Link.{LinkType, ethernet, raw_ip, linux_sll, linux_sll2, from_dlt, dlt}

-- The number of a link type is read back as that type.
pub from_dlt-dlt : (l : LinkType) → from_dlt (dlt l) ≡ some l
unfolding from_dlt dlt
from_dlt-dlt ethernet = refl
from_dlt-dlt raw_ip = refl
from_dlt-dlt linux_sll = refl
from_dlt-dlt linux_sll2 = refl
