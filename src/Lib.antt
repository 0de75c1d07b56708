-- ===== src/Lib.antt =====
-- The firmware of an OSDP reader for DESFire EV3 cards: its NFC task, the credential on the card,
-- the secure messaging with the card, and the mode controller that joins the tasks.
--
-- The parts and how they interact. main/nfc_task.c polls the front end (nfc_hal.h), and for a card
-- that has come into the field calls components/leaf (leaf_read or leaf_personalize), by the mode
-- that components/reader_core/mode_controller.c keeps; what happened goes back to the mode
-- controller as an event, which it sends to its subscribers, and to the indicator.
-- components/leaf/leaf.c derives the keys of the card and drives components/desfire: selecting,
-- authentication (desfire_auth.c), commands with MAC (desfire.c) or encrypted (desfire_enc.c), all
-- over desfire_xfer, and the CMAC and CRC of desfire_crypto.c.
--
-- The modules.
--   Common      tests, lists over the native numbers, bits and bytes (bytes are numbers below 256)
--   Text        the C library's functions on texts that the console and the page call, over the
--               bytes of a string; Decimal: printed numbers; Hex: parse_hex_byte, parse_hex_blob
--   Settings    the part of the NVS that osdp_pd.c and netconfig.c use
--   Io          calls of the drivers: a status with a result, and the new state of what they drive
--   Esp         esp_err_t and the outcome of a call; `fault` is a write past a local array
--   Desfire     State: desfire_session_t, the globals g_session, g_session_mac_key_full and
--               s_last_status as the record Host, and actions on it; Post: postconditions;
--               Crypto: desfire_crypto.c; Transport: desfire_xfer and cmac_append_and_send;
--               Auth: desfire_auth.c; Secure: desfire_enc.c; Commands: the operations of desfire.h
--   Leaf        leaf.c; Credential: the ten bytes of a credential; Read, File, Personalize,
--               KeyStore: laws
--   Reader      mode_controller.c; Types: the enumerations of board_io.h and mode_controller.h;
--               Setters: the steps of mode_set, called by several tasks and interleaved
--   NfcTask     nfc_task.c, one iteration of its loop at a time; Life: the whole task
--   Board       board_io.c: the indicator task up to and from the store that ends a pattern, and
--               the button task, one iteration of each at a time
--   Pn532       pn532.c: frames, their checks, and the commands of the chip; Chip: a chip at the
--               other end of the bus, and the driver over it
--   NfcHal      nfc_hal.c, and the platform of Desfire with the PN532 for its front end
--   Pn5180      Spi: pn5180_spi.c; Transceive: pn5180_transceive.c; Activate and Apdu:
--               pn5180_iso14443.c, over the record Link of what it calls of the chip. Tag is a card
--               that keeps to ISO 14443-3, Picc one that speaks the blocks of pn5180_internal.h
--   Console     console.c: the words of a line, and the commands; Lines: the loop over lines
--   WebUi       webui.c: the values of a message, and the commands; on the same globals. Socket:
--               the client's frames, the replies, and the events that are pushed
--   EventText   the JSON of an event, which console.c and webui.c print
--   Osdp        osdp_pd.c: the configuration, the panel's commands and the reports to it
--   Netconfig   netconfig.c: the credentials of the network, and the events of the station; Start:
--               the station or the access point, as calls of the radio
--   Startup     app_main.c
--   Samples     concrete data; the Tests modules apply the theorems to it
--
-- State and operations. A function of the source is a definition of the same name; what follows an
-- exchange with the card, inside a function, is a definition of its own (auth_step1, auth_step2,
-- cmac_finish, enc_recv_finish, ...). An action takes a Host and returns its outcome and the new
-- Host. A return of -1 is `err esp_fail`. The globals that are set and put back around a CMAC
-- (cmac_with_key, leaf_payload_mac) are set and put back in the model. The counter cmd_ctr wraps
-- at 2 ^ 16 and the counter of drops at 2 ^ 32. The loops run over lists or
-- count down, but for the two of pn5180_iso14443_apdu: these take fuel, and with too little of it
-- the call has not returned yet (`none`). The result on the exchange says how much is enough: one
-- unit for each byte of the command and of the response. A polling loop of a driver has the number
-- of its rounds from the parameter that stands for the timer. `decimal` has room for 11 digits, a
-- number of 32 bits has 10.
--
-- Parameters. AES in ECB and CBC mode (mbedTLS), the random generator and the exchange of an APDU
-- are the record Platform; the NVS is Nvs; FreeRTOS queues are Queues, with their documented
-- behaviour as IsQueue; the poll of the front end is Front. The SPI bus of the PN532 is Spi, with
-- the number of rounds that a polling loop has before its deadline, that of the PN5180 is Pins. The
-- NVS of the settings is Settings, the radio of the network Radio, the flash behind the NVS Flash,
-- the creation of tasks and the start of the HTTP server Rtos, either of which may fail, and the
-- submission of an event to libosdp, which may refuse it, the function `submit`.
-- `W` is the state of the world outside.
-- A theorem that needs more of a parameter has it as a hypothesis: that decryption keeps the
-- length; as IsHonest, what a card does that holds the key, with the initial vectors chained through
-- the handshake as desfire_auth.c has them; as IsPicc, what a card does that codes its R-blocks as
-- pn5180_internal.h does; as IsPn532, what the chip of that bus does; as IsPool, that libosdp takes
-- an event where its pool has room; and as KeepsTexts, KeepsNumbers and KeepsKey, that an NVS keeps what is set.
--
-- Not modelled: logging and delays; interleavings but for those of mode_set and the loop of
-- mode_post_event in it (elsewhere each call is a step); the texts that the console prints (a reply is a constructor with its values); the HTTP
-- server (Server is a parameter) and the page; the set-up of ESP-IDF, UART, SPI and libosdp; NVS
-- encryption; the vendored libosdp.
pub mod Common
pub mod Esp
pub mod Io
pub mod Desfire
pub mod Leaf
pub mod Reader
pub mod NfcTask
pub mod Board
pub mod Pn5180
pub mod Pn532
pub mod NfcHal
pub mod Samples
pub mod Settings
pub mod Startup
pub mod Text
pub mod EventText
pub mod Osdp
pub mod Netconfig
pub mod Console
pub mod WebUi
