-- ===== src/Lib.antt =====
-- dmesh-l2: the C firmware of a mesh node on the ESP32 (esp32/components and esp32/main). Its links
-- are LoRa, BLE, classic Bluetooth and Wi-Fi Aware (NAN); a message that comes in on one of them is
-- relayed to others, a display shows counters, and a console sets values in the flash storage.
--
-- Parts and files, by their paths in the repository:
--   Lora     esp32/components/l2lora. Lora/Driver and Lora/Radio model lora_drv.c, one function for
--            each routine (set_coding_rate for lora_set_coding_rate), over a state of the board.
--            Lora/Tasks models lora.c, a round of each task at a time. Lora/Board says what the
--            driver is given: the GPIO, SPI and delay calls, and what the data sheet of the
--            transceiver says of its registers, FIFO and memory. Lora/Sim is a board that has these
--            laws.
--   Ble      esp32/components/l2-ble-bt/ble_spp_server.c: bleSend in Ble/Send, the GATT and GAP event
--            handlers in Ble/Server, starting the stack in Ble/Start.
--   Bt       esp32/components/l2-ble-bt/bt_spp_server.c.
--   Hci      esp32/components/l2-ble-bt/ble_hci.c.
--   Nan      esp32/components/esp-nan-aware: frames as bytes in Nan/Frames, the senders of nan.c and
--            beacons.c in Nan/Driver, the promiscuous callback and the frame handlers in Nan/Receive,
--            timer, start and console command in Nan/Timer.
--   Dmesh    esp32/components/l3dmesh/dmesh.c: onMessage, which calls Lora, Ble and Bt, in
--            Dmesh/Relay, and the timer in Dmesh/Start.
--   Oled     esp32/components/ssd1306, and the lines that esp32/main/ui.c draws.
--   Ui       esp32/main/ui.c: the texts of the counters of Lora and Nan, the reset pin and the start.
--   I2c      esp32/components/i2c/i2ctools.c: the set-up of the bus in I2c/Bus, the commands in
--            I2c/Tools.
--   System   esp32/components/l3dmesh/cmd_system.c: the sleep commands in System/Sleep, with the deep
--            sleep of esp32/main/main.c, the others in System/Info.
--   Gpio     esp32/components/gpio.
--   Console  esp32/main/console.c: the types, blobs and numbers of nvs_set and nvs_get in
--            Console/Types, Blob, Values and Reading, the other commands in Console/Commands, the
--            loop of the task in Console/Task. Console/Storage says what a read of a number gives
--            after recorded calls.
--   Wifi     esp32/main/wifi_sta_ap.c: Wifi/Station has the state, the event handler, start, join and
--            stop, Wifi/Command the console command. Events come as lists, those before and those
--            during the wait of wifi_join.
--   Main     esp32/main/main.c: app_main in Main/Boot, which calls Wifi.
--   Nvs      what is assumed of the strings in the flash storage.
--   Base     what the parts share: lists, bytes and words, and runs that may fault.
--
-- How the code is modelled. Static variables and structs are records that the functions take and
-- return. A run that may leave an array, which C does not define, returns an Option, with none for
-- that access, or for an abort by ESP_ERROR_CHECK or an assertion. Calls into the system are
-- recorded in order, and their results are parameters. Numbers are natural numbers with the
-- wrap-around of the C type written out, and buffers are lists of bytes. Logging is left out.
--
-- Fuel. bleSend counts 300 rounds, more than its one-byte counter can tell apart. lora_send_packet
-- polls the transceiver as often as the caller allows. The walk over the attributes of an action
-- frame has one round more than the frame has bytes, which is enough for every frame. All other loops
-- are structural.
--
-- Not modelled: the Go programs and packages (cc2540, pkg, with its copy of nl80211.h), the set-up of
-- the UART and of the line editor in console.c, the tables of command line options, and logging.
pub mod Base
pub mod Ble
pub mod Bt
pub mod Console
pub mod Dmesh
pub mod Gpio
pub mod Hci
pub mod I2c
pub mod Lora
pub mod Main
pub mod Nan
pub mod Nvs
pub mod Oled
pub mod System
pub mod Ui
pub mod Wifi
