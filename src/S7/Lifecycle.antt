-- ===== src/S7/Lifecycle.antt =====
-- s7/S7Server.cpp: `start`, `stop` and `getClientsCount`. What the calls of the snap7 library answer is a parameter.
use v_plc_runtime.Shared.{
  ℕ, ◌≡◌, refl, Bool, true, false, ◌==◌, if◌then◌else◌, List, [], ◌∷◌, ◌++◌, either_branch,
}

-- The buffers that `start` registers.
pub data SrvArea : Type 0 where
  srv_area_pe : SrvArea
  srv_area_pa : SrvArea
  srv_area_db1 : SrvArea
  srv_area_db2 : SrvArea

-- The calls of `start`.
pub data SrvCall : Type 0 where
  srv_set_param : SrvCall
  srv_register_area : SrvArea → SrvCall
  srv_start_to : SrvCall

-- What the library and the server know: the areas in the order of their registration.
pub record Server : Type 0 where
  pub areas : List SrvArea
  pub is_running : Bool

unfoldable pub new_server : Server
new_server = record { areas = []; is_running = false }

module _ (succeeds : SrvCall → Bool) where
  -- The registrations, one after the other, and `Srv_StartTo`.
  unfoldable pub register_areas : List SrvArea → Server → Server × Bool
  register_areas [] s =
      if succeeds srv_start_to then (record s { is_running = true }, true) else (s, false)
  register_areas (a ∷ areas) s =
      let rest = register_areas areas (record s { areas = s.areas ++ (a ∷ []) }) in
      if succeeds (srv_register_area a) then rest else (s, false)

  -- `start`
  unfoldable pub start : Server → Server × Bool
  start s =
      if s.is_running
      then (s, true)
      else if succeeds srv_set_param
      then register_areas (srv_area_pe ∷ srv_area_pa ∷ srv_area_db1 ∷ srv_area_db2 ∷ []) s
      else (s, false)

-- `stop`
unfoldable pub stop : Server → Server
stop s = if s.is_running then record s { is_running = false } else s

-- `getClientsCount`, by the handle, the result of `Srv_GetStatus` and the count that it reports.
unfoldable pub get_clients_count : Bool → ℕ → ℕ → ℕ
get_clients_count has_server res clients_count =
    if has_server then (if res == 0 then clients_count else 0) else 0

-- A server that runs serves the four areas in this order.
pub data Started (out : Server × Bool) : Type 0 where
  running :
      out.1 ≡ true
      → out.0.is_running ≡ true
      → out.0.areas ≡ srv_area_pe ∷ srv_area_pa ∷ srv_area_db1 ∷ srv_area_db2 ∷ []
      → Started out
  not_running : out.1 ≡ false → out.0.is_running ≡ false → Started out

-- A call that fails ends `start`, with the areas registered so far.
unless_fails :
    (succeeds : SrvCall → Bool) (c : SrvCall) (areas : List SrvArea) (out : Server × Bool)
    → Started out
    → Started (if succeeds c then out else (record { areas = areas; is_running = false }, false))
unless_fails succeeds c areas out h =
    either_branch Started (succeeds c) _ _ (λ _. h) (λ _. not_running refl refl)

-- How the start of the server ends.
pub start-Started : (succeeds : SrvCall → Bool) → Started (start succeeds new_server)
unfolding start register_areas new_server
start-Started succeeds = unless_fails succeeds srv_set_param [] _ (
    unless_fails succeeds (srv_register_area srv_area_pe) [] _ (
      unless_fails succeeds (srv_register_area srv_area_pa) (srv_area_pe ∷ []) _ (
        unless_fails succeeds (srv_register_area srv_area_db1) (srv_area_pe ∷ srv_area_pa ∷ []) _ (
          unless_fails succeeds (srv_register_area srv_area_db2)
            (srv_area_pe ∷ srv_area_pa ∷ srv_area_db1 ∷ []) _
            (unless_fails succeeds srv_start_to
              (srv_area_pe ∷ srv_area_pa ∷ srv_area_db1 ∷ srv_area_db2 ∷ []) _
              (running refl refl refl))))))
