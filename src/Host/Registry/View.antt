-- ===== src/Host/Registry/View.antt =====
-- host/TunRegistry.cpp as its users see it: a map from names to devices, of which neither the order
-- nor the descriptors are a part.
use mathlib.Core.Path.{fun_ext}
use wetnork.Base.{
  ℕ, ◌≡◌, refl, ap, ap₂, ◌∙◌, List, [], ◌∷◌, Option, none, some, Bool, if◌then◌else◌,
}
use wetnork.Exceptions.{natural, Outcome, ok, throw, system_error}
use wetnork.Host.Kernel.{Answer, granted, failed}
use wetnork.Host.Device.{TunDevice}
use wetnork.Host.Registry.{
  Registry, same_text, Interface, create_device, find_device, close_device, is_found,
}
use wetnork.Host.Registry.Names.{
  IsMap, find_device-create_device, create_device-IsMap, close_device-find_device,
}

pub data Request : Type 0 where
  creates : Answer ℕ → Answer Interface → Request
  finds closes : List ℕ → Request

pub data Reply : Type 0 where
  created : Outcome TunDevice → Reply
  found : Option TunDevice → Reply
  closed : Bool → Reply

unfoldable pub serve : Request → Registry → Registry × Reply
serve (creates control made) r = let (r', o) = create_device control made r in (r', created o)
serve (finds name) r = (r, found (find_device r name))
serve (closes name) r = let (r', b) = close_device r name in (r', closed b)

unfoldable pub serve_all : List Request → Registry → List Reply × Registry
serve_all [] r = ([], r)
serve_all (q ∷ qs) r =
    let (r', a) = serve q r in let (answers, last) = serve_all qs r' in (a ∷ answers, last)

-- The specification: the device of each name.
abbrev pub Names : Type 0
Names = List ℕ → Option TunDevice

abbrev pub device_of : ℕ → Interface → TunDevice
device_of fd i = record { fd = natural fd; if_index = natural i.if_index; name = i.if_name }

abbrev pub specified : Request → Names → Names × Reply
specified (creates (failed errno) made) m = (m, created (throw (system_error errno)))
specified (creates (granted fd) (failed errno)) m = (m, created (throw (system_error errno)))
specified (creates (granted fd) (granted i)) m = (
  λ name. if same_text i.if_name name then some (device_of fd i) else m name,
  created (ok (device_of fd i)),
)
specified (finds name) m = (m, found (m name))
specified (closes name) m =
    (λ other. if same_text name other then none else m other, closed (is_found (m name)))

unfoldable pub specified_all : List Request → Names → List Reply × Names
specified_all [] m = ([], m)
specified_all (q ∷ qs) m =
    let (m', a) = specified q m in let (answers, last) = specified_all qs m' in (a ∷ answers, last)

abbrev pub view : Registry → Names
view r name = find_device r name

-- What one request comes to for the registry, against the specification.
record Refines (q : Request) (r : Registry) : Type 0 where
  reply : (serve q r).1 ≡ (specified q (view r)).1
  names : view (serve q r).0 ≡ (specified q (view r)).0
  distinct : IsMap (serve q r).0.devices

serve-Refines : (q : Request) (r : Registry) → IsMap r.devices → Refines q r
unfolding serve create_device find_device
serve-Refines (creates (failed errno) made) r m = record {
  reply = refl;
  names = refl;
  distinct = m;
}
serve-Refines (creates (granted fd) (failed errno)) r m = record {
  reply = refl;
  names = refl;
  distinct = m;
}
serve-Refines (creates (granted fd) (granted i)) r m = record {
  reply = refl;
  names = fun_ext λ name. find_device-create_device fd i r name;
  distinct = create_device-IsMap (granted fd) (granted i) r m;
}
serve-Refines (finds name) r m = record { reply = refl; names = refl; distinct = m }
serve-Refines (closes name) r m = record {
  reply = ap closed (close_device-find_device r name name m).0;
  names = fun_ext λ other. (close_device-find_device r name other m).1;
  distinct = (close_device-find_device r name name m).2;
}

-- A registry with distinct names implements a map from names to devices: whatever is asked of it, in
-- any order, and whatever the kernel answers, it replies as the map does and stands for the map that
-- results, and its names are still distinct.
pub serve_all-refines :
    (qs : List Request) (r : Registry)
    → IsMap r.devices
    → ((serve_all qs r).0 ≡ (specified_all qs (view r)).0)
      × (view (serve_all qs r).1 ≡ (specified_all qs (view r)).1)
      × IsMap (serve_all qs r).1.devices
unfolding serve_all specified_all
serve_all-refines [] r m = (refl, refl, m)
serve_all-refines (q ∷ qs) r m =
    let one = serve-Refines q r m in
    let (replies, names, distinct) = serve_all-refines qs (serve q r).0 one.distinct in
    (
      ap₂ (λ a rest. a ∷ rest) one.reply (replies ∙ ap (λ m'. (specified_all qs m').0) one.names),
      names ∙ ap (λ m'. (specified_all qs m').1) one.names,
      distinct,
    )
