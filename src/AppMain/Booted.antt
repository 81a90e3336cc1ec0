-- ===== src/AppMain/Booted.antt =====
-- main/main.cpp: `app_main` up to its main loop, on each of its paths.
use esp32_s3_rap.Base.{
  ℕ, ◌≡◌, ◌∙◌, ap, true, some, arith, ◌&&◌, if◌then◌else◌, Bool-cases, inl, inr,
}
use esp32_s3_rap.Base.Queue.{QueueApi}
use esp32_s3_rap.Protocol.{StatusPacket}
use esp32_s3_rap.Provisioning.{load_or_provision}
use esp32_s3_rap.Provisioning.Identity.{load_or_provision-IsIdentity}
use esp32_s3_rap.Drivers.Order.{Board, powered_up, perform_all}
use esp32_s3_rap.EspNow.{RxItem}
use esp32_s3_rap.EspNow.Peers.{PeerApi}
use esp32_s3_rap.Uplink.State.{StatusItem, VideoItem}
use esp32_s3_rap.VideoRelay.State.{Frame}
use esp32_s3_rap.AppMain.Boot.{
  Answers, Boot, aborted, open_flash, open_network, start_radio, app_main, provision, Console,
}
use esp32_s3_rap.AppMain.Parts.{networked}
use esp32_s3_rap.AppMain.Ends.{flash_up, network_up, Reaches, provision-Reaches}

module _ (out : QueueApi StatusPacket) (readings : QueueApi StatusItem)
    (frames : QueueApi VideoItem) (heard : QueueApi RxItem) (relayed : QueueApi Frame)
    (radio : PeerApi) where
  open_network_lem :
      (a : Answers) (rest : Boot out readings frames heard relayed radio)
      → let r = open_network out readings frames heard relayed radio a rest in
        (r.0 ≡ (if a.netif && a.event_loop then rest.0 else aborted))
        × (perform_all r.1 (record powered_up { flash = true }) ≡ (
            if a.netif && a.event_loop
            then perform_all rest.1 networked
            else some (record powered_up { flash = true; netif = a.netif })))
  unfolding open_network perform_all
  open_network_lem a rest = ground arith

  open_flash_lem :
      (a : Answers) (rest : Boot out readings frames heard relayed radio)
      → let r = open_flash out readings frames heard relayed radio a rest in
        (r.0 ≡ (if flash_up a then rest.0 else aborted))
        × (perform_all r.1 powered_up ≡ (
            if flash_up a
            then perform_all rest.1 (record powered_up { flash = true })
            else some powered_up))
  unfolding open_flash perform_all
  open_flash_lem a rest = ground arith

  abbrev stopped : Answers → Board
  stopped a =
      if flash_up a then (record powered_up { flash = true; netif = a.netif }) else powered_up

  abbrev after_network :
      Answers → Console → ℕ → radio.Table → Boot out readings frames heard relayed radio
  after_network a c now peers =
      provision out readings frames heard relayed radio
        (load_or_provision c.scan c.flash c.lines c.nvs)
        (λ node_id chain_size.
          start_radio out readings frames heard relayed radio a now node_id chain_size peers)

  app_main_lem :
      (a : Answers) (c : Console) (now : ℕ) (peers : radio.Table)
      → let rest = after_network a c now peers in
        let r = app_main out readings frames heard relayed radio a c now peers in
        (r.0 ≡ (if network_up a then rest.0 else aborted))
        × (perform_all r.1 powered_up
            ≡ (if network_up a then perform_all rest.1 networked else some (stopped a)))
  unfolding app_main
  app_main_lem a c now peers =
      let rest = after_network a c now peers in
      let (flash, flash_calls) =
        open_flash_lem a (open_network out readings frames heard relayed radio a rest) in
      let (network, calls) = open_network_lem a rest in
      (ground (arith, flash, network), ground (arith, flash_calls, calls))

  -- Whatever the calls of start-up answer and the console says: each call is made when what it needs
  -- is up, and nothing is freed that is absent or in use. Start-up is aborted exactly if the flash,
  -- the network or a call of NVS fails, restarts or waits exactly if provisioning does, and halts
  -- exactly if then ESP-NOW or its queue fails, in these cases with no task asked for. Else the main
  -- loop starts, on a legal identity, with the chain and the uplink of `start_up`, where `ethernet` is
  -- whether the driver was installed, with the receive queue and the handler in place, with the
  -- broadcast address a peer if `addPeer` takes it (its answer is not looked at), and with the SPI
  -- receiver's callbacks and blocks if that task was asked for.
  pub app_main-Reaches :
      (a : Answers) (c : Console) (now : ℕ) (peers : radio.Table)
      → Reaches out readings frames heard relayed radio a
          (load_or_provision c.scan c.flash c.lines c.nvs)
          now
          peers
          powered_up
          (app_main out readings frames heard relayed radio a c now peers)
  app_main-Reaches a c now peers =
      let rest = after_network a c now peers in
      let (outcome, calls) = app_main_lem a c now peers in
      elim (Bool-cases (network_up a)) [
        | inl up ↦
            let (last, ordered, ends) =
              provision-Reaches out readings frames heard relayed radio a
                (load_or_provision c.scan c.flash c.lines c.nvs) now peers up
                (load_or_provision-IsIdentity c.scan c.flash c.lines c.nvs) in
            let reached = outcome ∙ ap (λ t. if t then rest.0 else aborted) up in
            (
              last,
              calls
                  ∙ ap (λ t. if t then perform_all rest.1 networked else some (stopped a)) up
                  ∙ ordered,
              rw reached ends,
            )
        | inr down ↦
            let reached = outcome ∙ ap (λ t. if t then rest.0 else aborted) down in
            (
              stopped a,
              calls ∙ ap (λ t. if t then perform_all rest.1 networked else some (stopped a)) down,
              rw reached (inl down, ground arith),
            )
      ]
