-- ===== src/Lib.antt =====
-- The virtual gateway of the smart home (VirtualGateway/devcontrol_gateway): a Python service that
-- simulates devices, takes encrypted commands from paired clients, and keeps an audit log; with the
-- tool that prints the QR codes of devices (QRgeneration) and the service that signs the gateways'
-- certificates (SigningAdmin).
--
-- Parts. A client pairs by a short code and gets a credential and a data key (security.py). A command
-- arrives as an encrypted envelope; `process_command` (service.py) looks for a repeated message, an old
-- timestamp and a used nonce, decrypts, and hands the command to the registry of devices (registry.py).
-- The registry checks that the device is online and at the expected version and calls the driver of
-- its family (drivers.py); the air conditioner's driver builds a frame by an adapter of its brand
-- (adapters.py). A background task ticks all devices. Alerts, readings and the audit log go to SQLite
-- (storage.py). The drivers are put together in composition.py.
--
-- Commands arrive over HTTPS or a WebSocket (app.py) or from an MQTT broker (mqtt_transport.py); each
-- way checks the credential, validates the envelope (models.py) and calls `process_command`, and the
-- events go to all sinks: event streams, WebSockets, the broker. A device is added by a registration
-- with a certificate that the gateway has signed (security.py); the QR tool asks the maintenance API
-- for it and packs it. The settings come from the environment (config.py).
--
-- Files.
--   Prelude      tests on numbers, lists and texts that the parts share
--   Numbers      Python's int and float: exact fractions, infinities, NaN; Numbers/Bounds
--   Value        JSON values; Errors: errors.py and Python's own exceptions; Exec: methods that change
--                an object and may raise, and keep what they wrote before raising
--   Ascii        texts character by character: classes, strip, split; Ascii/Pieces
--   Base64       base64url of security.py; Letters and RoundTrip
--   Dict         Python's dict, in insertion order; Dict/Laws
--   Adapters     adapters.py; what a device reads in a frame: Drivers/AirConditioner/Reading, Encoding
--   Storage      storage.py: each table a list of rows; Storage/Rows, Pages, History
--   Device       `base_device` and one record for each family; Device/View: the public dict
--   Context      `DriverContext` and its implementation in registry.py
--   Drivers      drivers.py, a module for each family: `execute`, `tick`, `create_devices`,
--                `attest_registration`; their laws below them
--   Composition  composition.py: the families as records of the `DeviceDriver` interface; Lawful: the
--                contract between a driver and the registry; Answers: what a registration gets
--   Registry     registry.py: Provisioning, Commands, Scenes, Ticks, Faults; their laws below them
--   Sessions     `SessionRegistry` of security.py
--   Payload      `SecureCommandEnvelope` of models.py, `decrypt_payload` of security.py
--   Sealing      `encrypt_payload` of security.py
--   Validation   models.py: the patterns; Requests: the models; Rendering: requests as JSON
--   Certificates `DeviceProvisioningAuthority` of security.py; Integers, Verification, Genuine
--   Service      service.py: `process_command`, Windows (the caches), History (runs of commands),
--                Management (rooms and devices), Sinks (add_sink, remove_sink, broadcast)
--   QrCode       QRgeneration/generate_device_qr.py; Manifest: the tool against the gateway
--   Config       config.py; Config/Validation
--   Http         app.py: BodyLimit (the middlewares), Stream (server-sent events), Routes, Responses,
--                Socket (the WebSocket), Admin (maintenance routes, and a round of telemetry), Briefing
--   Mqtt         mqtt_transport.py; Commands, Lifecycle
--   Signing      SigningAdmin/signing_admin/service.py: files; Operations; Issue, Rotation
--   Examples     the theorems on concrete inputs
--
-- State. The registry holds the devices as a dict of records; a method that changes a device writes it
-- back under its id. A method is a function from a state to a result and a state; what a method wrote
-- before it raised stays written, as in Python. Each method of the registry and the service runs under
-- a lock, and is one step. Times are milliseconds; one step reads one time, and only the delay of a
-- device moves the clock on. The monotonic clock of the service is kept beside the wall clock and
-- moves on by the same delay. Between two commands of a run any time may pass, and the registry and the
-- wall clock may be anything.
--
-- Bounds and fuel. Integers are unbounded, as in Python. `new_pairing_code` makes sixteen draws, as the
-- code does. `read_all`, a client of `get_logs`, takes fuel for more pages than there are rows, which
-- is enough since each page but the last holds a row.
--
-- Taken from outside, as parameters: hashing, random numbers, AES-GCM, ECDSA, X.509, JSON texts, the
-- arithmetic of floats and the sine, pydantic's conversions of numbers, the MQTT client, the file
-- system and the environment. The loop that reads a request's body runs over the messages that come,
-- and waits when there are no more.
--
-- Not modelled: the asyncio tasks that repeat the rounds of service.py, the rendering of responses and
-- the HTML of the dashboard, the first version of the briefing, TLS contexts, the opening of the
-- database file and of the key file, the image of the QR code, the web console and the command line of
-- SigningAdmin, and the client (DevControl).
pub mod Prelude
pub mod Numbers
pub mod Ascii
pub mod Base64
pub mod Value
pub mod Errors
pub mod Exec
pub mod Dict
pub mod Adapters
pub mod Storage
pub mod Device
pub mod Context
pub mod Drivers
pub mod Composition
pub mod Registry
pub mod Sessions
pub mod Payload
pub mod Validation
pub mod Sealing
pub mod Certificates
pub mod QrCode
pub mod Config
pub mod Http
pub mod Mqtt
pub mod Signing
pub mod Service
pub mod Examples
