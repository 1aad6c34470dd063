-- ===== src/Ui/WellFormed/Keys.antt =====
-- What the keys (internal/ui/model.go, internal/ui/viewmenu.go) do to the invariant of the model.
use autotun.Base.{
  ℕ, ◌+◌, ◌-◌, ◌<◌, Bool, true, false, not, Option, none, some, arith, ◌==◌, nat_eq, if◌then◌else◌,
  ltb, ℤ, pos, neg, length,
}
use autotun.Tunnel.Manager.{State}
use autotun.Tunnel.Scheme.{http, https}
use autotun.Ui.Sort.{sort_key_next}
use autotun.Ui.Input.{Key}
use autotun.Ui.Model.{
  Model, Reply, silent, editing, table_height, selected, reload, save_prefs, show_toast,
}
use autotun.Ui.Menu.{
  menu_at, changed_by, activate_menu_item, menu_cases, handle_menu_key, menu_rows,
}
use autotun.Ui.Keys.{
  Env, is_offline, quit_now, begin_quit, confirm_cases, handle_confirm_key, protocol_cases,
  handle_protocol_key, retry, offline_cases, handle_offline_key, toggle_detail, next_sort,
  reverse_sort, last_row, at_row, table_cases, handle_table_key, detail_cases, handle_detail_key,
  help_cases, handle_help_key, is_dissolving, handle_key,
}
use autotun.Ui.WellFormed.{
  IsSound, WellFormed, Fine, reload-WellFormed, clamp_cursor-WellFormed, move-WellFormed,
  save_prefs-IsSound, switch-Fine, either-Fine, if-WellFormed,
}
use autotun.Ui.WellFormed.Actions.{
  press_mode-Fine, press_scheme-Fine, toggle_pause-Fine, open_selected-Fine, choose_protocol-Fine,
  copy_selected-Fine, open_filter-WellFormed, open_local_port-Fine, open_label-Fine,
  handle_editor_key-Fine,
}

-- The menu.
if-IsSound : (b : Bool) (m k : Model) → IsSound m → IsSound k → IsSound (if b then m else k)
if-IsSound true m k w v = w
if-IsSound false m k w v = v

changed_by-IsSound : (i : ℕ) (m : Model) → IsSound m → IsSound (changed_by i m)
unfolding changed_by
changed_by-IsSound i m w =
    if-IsSound (i == 0) _ _ w (if-IsSound (i == 1) _ _ w (if-IsSound (i == 2) _ _ w w))

pub activate_menu_item-Fine : (i : ℕ) (m : Model) → WellFormed m → Fine (activate_menu_item i m)
unfolding activate_menu_item
activate_menu_item-Fine i m w =
    reload-WellFormed (save_prefs (changed_by i m))
      (save_prefs-IsSound (changed_by i m) (changed_by-IsSound i m w.1))

pub menu_at-WellFormed :
    (i : ℕ) (m : Model) → i < menu_rows → WellFormed m → WellFormed (menu_at i m)
menu_at-WellFormed i m l w =
    (w.0, record { ctrl = w.1.ctrl; input_in = w.1.input_in; menu_in = l; web = w.1.web })

pub handle_menu_key-Fine : (k : Key) (m : Model) → WellFormed m → Fine (handle_menu_key k m)
unfolding handle_menu_key
handle_menu_key-Fine k m w =
    let c = m.menu.cursor in
    switch-Fine k.name (menu_cases m) (silent m)
      (
        w,
        (
          if-WellFormed (ltb 0 c) (menu_at (c - 1) m) m
              (λ e. menu_at-WellFormed (c - 1) m (ground (arith, w.1.menu_in)) w) (λ e. w),
          (
            if-WellFormed (ltb c (menu_rows - 1)) (menu_at (c + 1) m) m
                (λ e. menu_at-WellFormed (c + 1) m (ground (arith, e)) w) (λ e. w),
            (activate_menu_item-Fine c m w, tt),
          ),
        ),
      )
      w

-- The layers over the table.
pub quit_now-Fine : (m : Model) → WellFormed m → Fine (quit_now m)
quit_now-Fine m w = w

handle_confirm_key-Fine :
    (env : Env) (k : Key) (m : Model) → WellFormed m → Fine (handle_confirm_key env k m)
unfolding handle_confirm_key begin_quit
handle_confirm_key-Fine env k m w =
    switch-Fine k.name (confirm_cases env m) (silent m)
      (either-Fine _ _ _ (λ e. w) (λ e. w), (w, tt)) w

handle_protocol_key-Fine : (k : Key) (m : Model) → WellFormed m → Fine (handle_protocol_key k m)
unfolding handle_protocol_key
handle_protocol_key-Fine k m w =
    switch-Fine k.name (protocol_cases m) (silent m)
      (choose_protocol-Fine http m w, (choose_protocol-Fine https m w, (w, tt))) w

handle_offline_key-Fine :
    (k : Key) (m : Model) (next : Reply)
    → WellFormed m
    → Fine next
    → Fine (handle_offline_key k m next)
unfolding handle_offline_key retry show_toast
handle_offline_key-Fine k m next w n =
    switch-Fine k.name (offline_cases m) next
      (either-Fine (m.opts).can_retry _ _ (λ e. w) (λ e. w), tt) n

-- The table.
pub toggle_detail-WellFormed :
    (o : Option State) (m : Model) → WellFormed m → WellFormed (toggle_detail o m)
toggle_detail-WellFormed none m w = w
toggle_detail-WellFormed (some s) m w = w

pub at_row-WellFormed : (c : ℤ) (m : Model) → WellFormed m → WellFormed (at_row c m)
at_row-WellFormed c m w = clamp_cursor-WellFormed (record m { cursor = c }) w.1

pub resort-WellFormed : (m : Model) → IsSound m → WellFormed (reload (save_prefs m))
resort-WellFormed m w = reload-WellFormed (save_prefs m) (save_prefs-IsSound m w)

handle_table_key-Fine :
    (env : Env) (k : Key) (m : Model) → WellFormed m → Fine (handle_table_key env k m)
unfolding handle_table_key next_sort reverse_sort show_toast
handle_table_key-Fine env k m w =
    let h = table_height m.height in
    switch-Fine k.name (table_cases env m) (silent m)
      (
        w,
        (
          w,
          (
            move-WellFormed (neg 1) m w,
            (
              move-WellFormed (pos 1) m w,
              (
                move-WellFormed (neg h) m w,
                (
                  move-WellFormed (pos h) m w,
                  (
                    at_row-WellFormed (pos 0) m w,
                    (
                      at_row-WellFormed (last_row (length m.rows)) m w,
                      (
                        resort-WellFormed (record m { sort_key = sort_key_next m.sort_key }) w.1,
                        (
                          resort-WellFormed (record m { reverse = not m.reverse }) w.1,
                          (
                            open_filter-WellFormed m w,
                            (
                              open_local_port-Fine m w,
                              (
                                open_label-Fine m w,
                                (
                                  w,
                                  (
                                    toggle_detail-WellFormed (selected m) m w,
                                    (
                                      press_mode-Fine env.now m w,
                                      (
                                        press_scheme-Fine m w,
                                        (
                                          open_selected-Fine m w,
                                          (
                                            copy_selected-Fine env.osc52 m w,
                                            (toggle_pause-Fine env.now m w, (w, tt)),
                                          ),
                                        ),
                                      ),
                                    ),
                                  ),
                                ),
                              ),
                            ),
                          ),
                        ),
                      ),
                    ),
                  ),
                ),
              ),
            ),
          ),
        ),
      )
      w

handle_detail_key-Fine :
    (env : Env) (k : Key) (m : Model) → WellFormed m → Fine (handle_detail_key env k m)
unfolding handle_detail_key
handle_detail_key-Fine env k m w =
    let next = handle_table_key-Fine env k m w in
    either-Fine m.show_detail _ _ (λ e. switch-Fine k.name (detail_cases m) _ (w, tt) next)
      (λ e. next)

handle_help_key-Fine :
    (env : Env) (k : Key) (m : Model) → WellFormed m → Fine (handle_help_key env k m)
unfolding handle_help_key
handle_help_key-Fine env k m w =
    let next = handle_detail_key-Fine env k m w in
    either-Fine m.show_help _ _ (λ e. switch-Fine k.name (help_cases m) _ (w, tt) next) (λ e. next)

pub handle_key-Fine : (env : Env) (k : Key) (m : Model) → WellFormed m → Fine (handle_key env k m)
unfolding handle_key
handle_key-Fine env k m w =
    either-Fine (is_dissolving m) _ _ (λ a. w)
      λ a.
        either-Fine m.confirming _ _ (λ b. handle_confirm_key-Fine env k m w)
          λ b.
            either-Fine (editing m.editor) _ _ (λ c. handle_editor_key-Fine env.now k m w)
              λ c.
                either-Fine m.protocol_prompt _ _ (λ d. handle_protocol_key-Fine k m w)
                  λ d.
                    either-Fine m.menu.is_open _ _ (λ e. handle_menu_key-Fine k m w)
                      λ e.
                        either-Fine (is_offline m) _ _
                          (λ f. handle_offline_key-Fine k m _ w (handle_help_key-Fine env k m w))
                          (λ f. handle_help_key-Fine env k m w)
